-- ===== src/Cbor/Items.antt =====
-- The items of the subset, their bytes, and lists of items that wait to be stepped over.
use lo_ra_home.Prelude.{
  ℕ, suc, ◌+◌, ◌*◌, ◌^◌, ◌<◌, ◌≡◌, refl, ap, sym, ◌∙◌, arith, List, [], ◌++◌, append_assoc, length,
}
use lo_ra_home.Cbor.{head_bytes}

-- The items of the subset. `Items` are those inside an array, `Pairs` those inside a map.
mutual
  pub data Item : Type 0 where
    uint nint : ℕ → Item
    bytes : List ℕ → Item
    array : Items → Item
    map : Pairs → Item

  pub data Items : Type 0 where
    no_items : Items
    item : Item → Items → Items

  pub data Pairs : Type 0 where
    no_pairs : Pairs
    pair : Item → Item → Pairs → Pairs

abbrev pub count_items : Items → ℕ
count_items no_items = 0
count_items (item x xs) = suc (count_items xs)

abbrev pub count_pairs : Pairs → ℕ
count_pairs no_pairs = 0
count_pairs (pair k v ps) = suc (count_pairs ps)

-- The bytes of an item.
abbrev mutual
  pub emit : Item → List ℕ
  emit (uint v) = head_bytes 0 v
  emit (nint v) = head_bytes 1 v
  emit (bytes b) = head_bytes 2 (length b) ++ b
  emit (array xs) = head_bytes 4 (count_items xs) ++ emit_items xs
  emit (map ps) = head_bytes 5 (count_pairs ps) ++ emit_pairs ps

  pub emit_items : Items → List ℕ
  emit_items no_items = []
  emit_items (item x xs) = emit x ++ emit_items xs

  pub emit_pairs : Pairs → List ℕ
  emit_pairs no_pairs = []
  emit_pairs (pair k v ps) = emit k ++ (emit v ++ emit_pairs ps)

-- The arrays and maps in an item, itself included, wherever they stand.
abbrev mutual
  pub containers : Item → ℕ
  containers (array xs) = suc (containers_items xs)
  containers (map ps) = suc (containers_pairs ps)
  containers _ = 0

  pub containers_items : Items → ℕ
  containers_items no_items = 0
  containers_items (item x xs) = containers x + containers_items xs

  pub containers_pairs : Pairs → ℕ
  containers_pairs no_pairs = 0
  containers_pairs (pair k v ps) = containers k + (containers v + containers_pairs ps)

-- The arguments of integers are `uint64_t`.
abbrev mutual
  pub IsItem : Item → Type 0
  IsItem (uint v) = v < 2 ^ 64
  IsItem (nint v) = v < 2 ^ 64
  IsItem (bytes b) = Unit
  IsItem (array xs) = AreItems xs
  IsItem (map ps) = ArePairs ps

  pub AreItems : Items → Type 0
  AreItems no_items = Unit
  AreItems (item x xs) = IsItem x × AreItems xs

  pub ArePairs : Pairs → Type 0
  ArePairs no_pairs = Unit
  ArePairs (pair k v ps) = IsItem k × IsItem v × ArePairs ps

-- The heads in an item.
abbrev mutual
  pub size : Item → ℕ
  size (array xs) = suc (size_items xs)
  size (map ps) = suc (size_pairs ps)
  size _ = 1

  pub size_items : Items → ℕ
  size_items no_items = 0
  size_items (item x xs) = size x + size_items xs

  pub size_pairs : Pairs → ℕ
  size_pairs no_pairs = 0
  size_pairs (pair k v ps) = size k + (size v + size_pairs ps)

-- The items of an array or map in front of those that wait.
abbrev pub join : Items → Items → Items
join no_items ys = ys
join (item x xs) ys = item x (join xs ys)

abbrev pub join_pairs : Pairs → Items → Items
join_pairs no_pairs ys = ys
join_pairs (pair k v ps) ys = item k (item v (join_pairs ps ys))

-- What a list of waiting items comes to.
pub record Sums (xs : Items) (bytes : List ℕ) (n c s : ℕ) : Type 0 where
  pub same_bytes : emit_items xs ≡ bytes
  pub same_count : count_items xs ≡ n
  pub same_containers : containers_items xs ≡ c
  pub same_size : size_items xs ≡ s
  pub same_ranges : AreItems xs

pub join-Sums :
    (xs ys : Items)
    → AreItems xs
    → AreItems ys
    → Sums
        (join xs ys)
        (emit_items xs ++ emit_items ys)
        (count_items xs + count_items ys)
        (containers_items xs + containers_items ys)
        (size_items xs + size_items ys)
join-Sums no_items ys a b = record {
  same_bytes = refl;
  same_count = omega arith;
  same_containers = omega arith;
  same_size = omega arith;
  same_ranges = b;
}
join-Sums (item x xs) ys a b =
    let ih = join-Sums xs ys a.1 b in
    record {
      same_bytes =
          ap (λ l. emit x ++ l) ih.same_bytes
          ∙ sym (append_assoc (emit x) (emit_items xs) (emit_items ys));
      same_count = omega (arith, ih.same_count);
      same_containers = omega (arith, ih.same_containers);
      same_size = omega (arith, ih.same_size);
      same_ranges = (a.0, ih.same_ranges);
    }

pub join_pairs-Sums :
    (ps : Pairs) (ys : Items)
    → ArePairs ps
    → AreItems ys
    → Sums
        (join_pairs ps ys)
        (emit_pairs ps ++ emit_items ys)
        (2 * count_pairs ps + count_items ys)
        (containers_pairs ps + containers_items ys)
        (size_pairs ps + size_items ys)
join_pairs-Sums no_pairs ys a b = record {
  same_bytes = refl;
  same_count = omega arith;
  same_containers = omega arith;
  same_size = omega arith;
  same_ranges = b;
}
join_pairs-Sums (pair k v ps) ys a b =
    let ih = join_pairs-Sums ps ys a.2 b in
    record {
      same_bytes =
          ap (λ l. emit k ++ (emit v ++ l)) ih.same_bytes
          ∙ ap (λ l. emit k ++ l) (sym (append_assoc (emit v) (emit_pairs ps) (emit_items ys)))
          ∙ sym (append_assoc (emit k) (emit v ++ emit_pairs ps) (emit_items ys));
      same_count = omega (arith, ih.same_count);
      same_containers = omega (arith, ih.same_containers);
      same_size = omega (arith, ih.same_size);
      same_ranges = (a.0, (a.1, ih.same_ranges));
    }
