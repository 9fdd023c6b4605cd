-- ===== src/Tests/FragRuns.antt =====
-- Fragments of frag.c at a concrete configuration.
use native.Mathlib.Decide.{ℕ_discrete}
use lo_ra_home.Prelude.{
  All, ℕ, ◌≡◌, refl, arith, List, [], ◌∷◌, false, length, take, replicate, length-replicate,
}
use lo_ra_home.Crc.{crc16}
use lo_ra_home.Frame.{be16}
use lo_ra_home.Frag.{
  Reassembler, complete, hdr_decode, header_is_sane, frag_feed, frag_count, slice_len, stale, tick,
  reset, begin, is_foreign, complete_mask, finish, store, take_in,
}
use lo_ra_home.Frag.Valid.{IsValid, complete_has_crc}
use lo_ra_home.Frag.Sent.{sent}
use lo_ra_home.Frag.Stored.{Waits}
use lo_ra_home.Frag.Assembly.{feed_all, assembles}

abbrev blank : Reassembler
blank = record {
  buf = replicate 1600 0;
  cfg_id = 0;
  received_mask = 0;
  expected_total = 0;
  total_len = 0;
  crc_expected = 0;
  first_frag_us = 0;
  active = false;
  stat_completed = 0;
  stat_timeouts = 0;
  stat_crc_fail = 0;
  stat_duplicates = 0;
  stat_foreign = 0;
}

blank-IsValid : IsValid blank
blank-IsValid = record {
  size = length-replicate {A = ℕ} 1600 0;
  mask = omega arith;
  total = omega arith;
}

-- The only fragment of a configuration of two bytes.
abbrev whole : List ℕ
whole = 0 ∷ 7 ∷ 0 ∷ 1 ∷ 0 ∷ 2 ∷ 0x0e ∷ 0x7c ∷ 1 ∷ 2 ∷ []

whole_complete : (frag_feed blank whole 50).1 ≡ complete
unfolding frag_feed header_is_sane frag_count slice_len stale tick reset begin is_foreign
    complete_mask finish store take_in hdr_decode crc16 be16
whole_complete = refl

complete_has_crc_example :
    (crc16 (frag_feed blank whole 50).0.buf (frag_feed blank whole 50).0.total_len
      ≡ (hdr_decode whole).crc_total)
    × ((frag_feed blank whole 50).0.total_len ≡ (hdr_decode whole).total_len)
    × ((frag_feed blank whole 50).0.active ≡ false)
complete_has_crc_example = complete_has_crc blank whole 50 whole_complete

abbrev config : List ℕ
config = replicate 250 9

-- The second of its two fragments twice, and then the first.
abbrev second_twice : List (ℕ × ℕ)
second_twice = (1, 60) ∷ (1, 70) ∷ []

assembles_example :
    All Waits (feed_all 7 config blank second_twice).1
    × ((frag_feed (feed_all 7 config blank second_twice).0 (sent 7 config 0) 80).1 ≡ complete)
    × (take
          (length config)
          (frag_feed (feed_all 7 config blank second_twice).0 (sent 7 config 0) 80).0.buf
        ≡ config)
    × ((frag_feed (feed_all 7 config blank second_twice).0 (sent 7 config 0) 80).0.total_len
        ≡ length config)
unfolding frag_count
assembles_example =
    assembles 7 config (omega arith) (omega arith) 50 blank second_twice 0 80 refl
      (length-replicate {A = ℕ} 1600 0) (omega arith) (omega arith) refl
      (λ k h ne. elim (ℕ_discrete k 1) [
        | yes e ↦ ground (arith, e)
        | no no_one ↦ absurd (omega arith)
      ])
