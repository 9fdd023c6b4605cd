-- ===== src/Scheduler/Bounds.antt =====
-- The arrays of the scheduler: their sizes, and what each slot holds.
use lo_ra_home.Prelude.{
  ℕ, ◌≤◌, ◌<◌, ◌≡◌, inl, inr, sym, ◌∙◌, arith, [], subst, Option, none, some, get_or, set, length,
  length-set, get_or-set, All-get_in, All, All-set,
}
use lo_ra_home.Driver.{Ctx, Vtable, Reading}
use lo_ra_home.Driver.Health.{Books}
use lo_ra_home.Scheduler.{Sched, vacant}

module _ {W S : Type 0} where
  -- A driver that is bound has no more channels than are kept.
  abbrev pub Fits : Option (Vtable W S) → Type 0
  Fits none = Unit
  Fits (some v) = v.channel_count ≤ 4

  -- A component with its channel cursor.
  pub record SlotOk (c : Ctx W S) (cursor : ℕ) : Type 0 where
    pub books : Books c.state c.consecutive_errors
    pub fits : Fits c.vt
    pub kept : cursor < 4

  pub record IsValid (blank : S) (s : Sched W S) : Type 0 where
    pub size_components : length s.components ≡ 8
    pub size_due : length s.next_due_us ≡ 8
    pub size_latest : length s.latest ≡ 8
    pub size_valid : length s.latest_valid ≡ 8
    pub size_cursor : length s.channel_cursor ≡ 8
    pub rows : All (λ row. length row ≡ 4) s.latest
    pub few : s.component_count ≤ 8
    pub slots :
        (j : ℕ) → SlotOk (get_or s.components j (vacant blank)) (get_or s.channel_cursor j 0)

  -- A component was changed by a call.
  pub put_component :
      (blank : S) (s : Sched W S) (slot : ℕ) (c : Ctx W S)
      → IsValid blank s
      → Books c.state c.consecutive_errors
      → c.vt ≡ (get_or s.components slot (vacant blank)).vt
      → IsValid blank (record s { components = set s.components slot c })
  put_component blank s slot c i books same = record {
    size_components = length-set s.components slot c ∙ i.size_components;
    size_due = i.size_due;
    size_latest = i.size_latest;
    size_valid = i.size_valid;
    size_cursor = i.size_cursor;
    rows = i.rows;
    few = i.few;
    slots = λ j. elim (get_or-set s.components slot j c (vacant blank)) [
      | inl e ↦ rw e (i.slots j)
      | inr (at, e) ↦ rw e (record {
        books = books;
        fits = subst Fits (sym same) (i.slots slot).fits;
        kept = (i.slots j).kept;
      })
    ];
  }

  pub put_cursor :
      (blank : S) (s : Sched W S) (slot cursor : ℕ)
      → IsValid blank s
      → cursor < 4
      → IsValid blank (record s { channel_cursor = set s.channel_cursor slot cursor })
  put_cursor blank s slot cursor i h = record {
    size_components = i.size_components;
    size_due = i.size_due;
    size_latest = i.size_latest;
    size_valid = i.size_valid;
    size_cursor = length-set s.channel_cursor slot cursor ∙ i.size_cursor;
    rows = i.rows;
    few = i.few;
    slots = λ j. record {
      books = (i.slots j).books;
      fits = (i.slots j).fits;
      kept = elim (get_or-set s.channel_cursor slot j cursor 0) [
        | inl e ↦ omega (arith, e, (i.slots j).kept)
        | inr (at, e) ↦ omega (arith, e)
      ];
    };
  }

  pub put_due :
      (blank : S) (s : Sched W S) (slot due : ℕ)
      → IsValid blank s
      → IsValid blank (record s { next_due_us = set s.next_due_us slot due })
  put_due blank s slot due i = record {
    size_components = i.size_components;
    size_due = length-set s.next_due_us slot due ∙ i.size_due;
    size_latest = i.size_latest;
    size_valid = i.size_valid;
    size_cursor = i.size_cursor;
    rows = i.rows;
    few = i.few;
    slots = i.slots;
  }

  pub put_latest :
      (blank : S) (s : Sched W S) (slot channel flags : ℕ) (out : Reading)
      → IsValid blank s
      → slot < 8
      → IsValid blank (record s {
        latest = set s.latest slot (set (get_or s.latest slot []) channel out);
        latest_valid = set s.latest_valid slot flags;
      })
  put_latest blank s slot channel flags out i h = record {
    size_components = i.size_components;
    size_due = i.size_due;
    size_latest = length-set s.latest slot _ ∙ i.size_latest;
    size_valid = length-set s.latest_valid slot flags ∙ i.size_valid;
    size_cursor = i.size_cursor;
    rows =
        All-set (λ row. length row ≡ 4) s.latest slot _ i.rows
          (length-set (get_or s.latest slot []) channel out
            ∙ All-get_in (λ row. length row ≡ 4) s.latest slot [] (omega (arith, i.size_latest))
                i.rows);
    few = i.few;
    slots = i.slots;
  }
