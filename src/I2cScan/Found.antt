-- ===== src/I2cScan/Found.antt =====
-- What a scan finds.
use lo_ra_home.Prelude.{
  ℕ, zero, suc, ◌+◌, ◌-◌, ◌*◌, ◌≤◌, ◌<◌, ◌≡◌, refl, ap, sym, ◌∙◌, arith, List, [], ◌∷◌, ◌++◌, Bool,
  true, false, append-nil, append_assoc, some, ltb, leb, if◌then◌else◌, length, length-append,
  length-set, set, take, take-set, take-all, min, subst, ◌*◌, ◌==◌, Bool-cases, inl, inr,
}
use native.Mathlib.Decide.{dec_lt}
use lo_ra_home.I2cScan.{
  Probe, ack, nack, timed_out, bus_error, I2cBus, ScanResult, no_result, tally, clock, i2c_probe,
  probed_one, scan_loop, scan, wedged_bus_timeouts, scan_budget_ms,
}

-- What one answer adds to the addresses.
abbrev one_ack : Probe → ℕ → List ℕ
one_ack ack addr = addr ∷ []
one_ack _ addr = []

-- The addresses that acknowledge, of `n` addresses from `addr` on.
unfoldable pub acks : (ℕ → Probe) → ℕ → ℕ → List ℕ
acks answers addr zero = []
acks answers addr (suc n) = one_ack (answers addr) addr ++ acks answers (addr + 1) n

-- The first sixteen of `xs` are recorded.
pub record Records (out : ScanResult) (xs : List ℕ) : Type 0 where
  pub size : length out.found ≡ 16
  pub number : out.found_count ≡ min 16 (length xs)
  pub same : take out.found_count out.found ≡ take 16 xs

take-append_full : (n : ℕ) (xs ys : List ℕ) → n ≤ length xs → take n (xs ++ ys) ≡ take n xs
take-append_full zero xs ys h = refl
take-append_full (suc n) [] ys h = absurd (omega arith)
take-append_full (suc n) (x ∷ xs) ys h = ap (◌∷◌ x) (take-append_full n xs ys (omega arith))

Records-append :
    (out : ScanResult) (xs : List ℕ) (addr : ℕ)
    → Records out xs
    → out.found_count < 16
    → Records
        (record out {
          found = set out.found out.found_count addr;
          found_count = out.found_count + 1;
        })
        (xs ++ (addr ∷ []))
Records-append out xs addr r h = record {
  size = length-set out.found out.found_count addr ∙ r.size;
  number = omega (arith, r.number, length-append xs (addr ∷ []));
  same =
      ap (λ n. take n (set out.found out.found_count addr)) {y = suc out.found_count} (omega arith)
      ∙ take-set out.found out.found_count addr (omega (arith, r.size))
      ∙ ap (λ l. l ++ (addr ∷ [])) (r.same ∙ take-all 16 xs (omega (arith, r.number)))
      ∙ sym
          (take-all 16 (xs ++ (addr ∷ [])) (omega (arith, r.number, length-append xs (addr ∷ []))));
}

tally-Records :
    (out : ScanResult) (xs : List ℕ) (consecutive addr : ℕ) (p : Probe)
    → Records out xs
    → addr < 256
    → Records (tally out consecutive addr p).0 (xs ++ one_ack p addr)
unfolding tally
tally-Records out xs consecutive addr ack r h = elim (dec_lt out.found_count 16) [
  | yes k ↦ ground (arith, Records-append out xs addr r k)
  | no k ↦
      (let full = take-append_full 16 xs (addr ∷ []) (omega (arith, r.number)) in
        let longer = length-append xs (addr ∷ []) in ground (arith, r, full, longer))
]
tally-Records out xs consecutive addr nack r h = rw append-nil (ground (arith, r))
tally-Records out xs consecutive addr timed_out r h = rw append-nil (ground (arith, r))
tally-Records out xs consecutive addr bus_error r h = rw append-nil (ground (arith, r))

tally_probed :
    (out : ScanResult) (consecutive addr : ℕ) (p : Probe)
    → (tally out consecutive addr p).0.probed ≡ out.probed
unfolding tally
tally_probed out consecutive addr ack = ground arith
tally_probed out consecutive addr nack = refl
tally_probed out consecutive addr timed_out = refl
tally_probed out consecutive addr bus_error = refl

-- What holds in each of three branches.
in_branches :
    {A : Type 0} (P : A → Type 0) (b c : Bool) {x y z : A}
    → P x
    → P y
    → P z
    → P (if b then x else if c then y else z)
in_branches P true c px py pz = px
in_branches P false true px py pz = py
in_branches P false false px py pz = pz

module _ {W : Type 0} (ask : W → ℕ → W × Probe) (answers : ℕ → Probe) where
  -- The devices on the bus do not change during the scan.
  abbrev pub Fixed : Type 0
  Fixed = (w : W) (addr : ℕ) → (ask w addr).1 ≡ answers addr

  -- Where the sweep stopped, from a result with `xs` on.
  record Swept (xs : List ℕ) (addr n : ℕ) (out : ScanResult) (r : W × ScanResult × Bool)
      : Type 0 where
    more : ℕ
    bound : more ≤ n
    probed : r.1.probed ≡ out.probed + more
    whole : r.2 ≡ true → more ≡ n
    records : Records r.1 (xs ++ acks answers addr more)

  scan_loop-Swept :
      (n : ℕ) (bus : I2cBus W) (w : W) (out : ScanResult) (consecutive addr : ℕ) (xs : List ℕ)
      → Fixed
      → Records out xs
      → out.probed + 8 ≡ addr
      → addr + n ≤ 120
      → Swept xs addr n out (scan_loop ask bus w out consecutive addr n)
  unfolding scan_loop acks i2c_probe
  scan_loop-Swept zero bus w out consecutive addr xs fixed r at h = record {
    more = 0;
    bound = omega arith;
    probed = omega arith;
    whole = λ e. refl;
    records = rw append-nil r;
  }
  scan_loop-Swept (suc n) bus w out consecutive addr xs fixed r at h =
      let asked = i2c_probe ask bus w addr in
      let finished = clock bus.now_us asked.0 out.finished_us in
      let out1 = probed_one out finished.1 asked.2 in
      let counted = tally out1 consecutive addr asked.1 in
      let answer : asked.1 ≡ answers addr = fixed (clock bus.now_us w 0).0 addr in
      let r1 : Records out1 xs =
        unfold probed_one in record { size = r.size; number = r.number; same = r.same } in
      let r2 : Records counted.0 (xs ++ one_ack (answers addr) addr) =
        subst (λ p. Records counted.0 (xs ++ one_ack p addr)) answer
          (tally-Records out1 xs consecutive addr asked.1 r1 (omega arith)) in
      let probed1 : counted.0.probed ≡ out.probed + 1 =
        tally_probed out1 consecutive addr asked.1 ∙ unfold probed_one in omega arith in
      let joined = append_assoc xs (one_ack (answers addr) addr) in
      let ih =
        scan_loop-Swept n bus finished.0 counted.0 counted.1 (addr + 1)
          (xs ++ one_ack (answers addr) addr) fixed r2 (omega arith) (omega arith) in
      let here : Records counted.0 (xs ++ (one_ack (answers addr) addr ++ [])) =
        subst (Records counted.0) (sym (append-nil _) ∙ joined []) r2 in
      let stopped : (out' : ScanResult)
          → Records out' (xs ++ (one_ack (answers addr) addr ++ []))
          → out'.probed ≡ out.probed + 1
          → Swept xs addr (suc n) out (finished.0, out', false) =
        λ out' records p. record {
          more = 1;
          bound = omega arith;
          probed = p;
          whole = λ e. absurd (ground (arith, e));
          records = records;
        } in
      in_branches (Swept xs addr (suc n) out) (leb wedged_bus_timeouts counted.1)
        (ltb (scan_budget_ms * 1000) (finished.1 - out.started_us))
        (stopped (record counted.0 { wedged = true })
          (record { size = here.size; number = here.number; same = here.same }) probed1)
        (stopped (record counted.0 { over_budget = true })
          (record { size = here.size; number = here.number; same = here.same }) probed1)
        (record {
          more = suc ih.more;
          bound = omega (arith, ih.bound);
          probed = omega (arith, ih.probed, probed1);
          whole = λ e. ap suc (ih.whole e);
          records = subst (Records _) (joined _) ih.records;
        })

  scan-Swept :
      (bus : I2cBus W) (w : W)
      → Fixed
      → bus.probe ≡ some ask
      → Swept [] 8 112 no_result (scan bus w)
  unfolding scan
  scan-Swept bus w fixed e =
      let t = clock bus.now_us w 0 in
      let start = record no_result { started_us = t.1; finished_us = t.1 } in
      let all =
        scan_loop-Swept 112 bus t.0 start 0 8 [] fixed
          (record { size = refl; number = refl; same = refl }) refl (omega arith) in
      rw e (record {
        more = all.more;
        bound = all.bound;
        probed = all.probed;
        whole = all.whole;
        records = all.records;
      })

  -- While the devices on the bus stay the same, a scan records the first sixteen addresses that
  -- acknowledge, in their order, of those that it asked; and it asked all 112 if it says so.
  pub scan_finds :
      (bus : I2cBus W) (w : W)
      → Fixed
      → bus.probe ≡ some ask
      → (let (w', out, whole) = scan bus w in
          (take out.found_count out.found ≡ take 16 (acks answers 8 out.probed))
          × (out.probed ≤ 112)
          × (if whole then out.probed == 112 else true) ≡ true)
  scan_finds bus w fixed e =
      let s = scan-Swept bus w fixed e in
      let out = (scan bus w).1 in
      let same : s.more ≡ out.probed = omega (arith, s.probed) in
      (
        s.records.same ∙ ap (λ n. take 16 (acks answers 8 n)) same,
        omega (arith, s.bound, s.probed),
        elim (Bool-cases (scan bus w).2) [
          | inl d ↦ (let all = s.whole d in ground (arith, d, all, same))
          | inr d ↦ ground (arith, d)
        ],
      )
