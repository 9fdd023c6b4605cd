-- ===== src/Tests/CborRuns.antt =====
-- The CBOR subset of cbor.c at concrete inputs.
use lo_ra_home.Prelude.{
  ℕ, ◌-◌, ◌^◌, ◌≡◌, refl, ◌∙◌, arith, List, [], ◌∷◌, ◌++◌, none, some, length, leb, if◌then◌else◌,
  replicate,
}
use lo_ra_home.Cbor.{head_bytes}
use lo_ra_home.Cbor.Writer.{writer_init}
use lo_ra_home.Cbor.Reader.{Reader, reader_init}
use lo_ra_home.Cbor.Heads.{At, reader_init-At}
use lo_ra_home.Cbor.Finish.{
  Write, uint, int, map, bytes, encodings, write_list, written, write_list_exact,
}

abbrev whole : List ℕ → Reader
whole content = reader_init content (length content)

-- An array of 70000 items announced in five bytes, then two more bytes.
abbrev announced : List ℕ
announced = head_bytes 4 70000 ++ (1 ∷ 2 ∷ [])

announced_bytes : announced ≡ 0x9a ∷ 0 ∷ 1 ∷ 0x11 ∷ 0x70 ∷ 1 ∷ 2 ∷ []
unfolding head_bytes
announced_bytes = refl

announced-At : At (whole announced) announced
unfolding head_bytes
announced-At = reader_init-At announced (omega arith)

-- A map of the key 1 with -2 and the key 2 with two bytes.
abbrev document : List Write
document = map 2 ∷ uint 1 ∷ int (2 ^ 64 - 2) ∷ uint 2 ∷ bytes (7 ∷ 9 ∷ []) ∷ []

document_fits : length (encodings document) ≡ 7
unfolding encodings lo_ra_home.Cbor.Finish.encoding head_bytes
document_fits = omega arith

document_bytes : encodings document ≡ 0xa2 ∷ 1 ∷ 0x21 ∷ 2 ∷ 0x42 ∷ 7 ∷ 9 ∷ []
unfolding encodings lo_ra_home.Cbor.Finish.encoding head_bytes
document_bytes = refl

write_list_exact_example :
    written (write_list (writer_init (replicate 9 0) 9) document)
    ≡ (if leb (length (encodings document)) 9 then some (encodings document) else none)
write_list_exact_example =
    write_list_exact document (replicate 9 0) (omega arith)
      (tt, (tt, (tt, (tt, (omega arith, tt)))))

-- There is no room for it in four bytes.
document_too_long : written (write_list (writer_init (replicate 4 0) 4) document) ≡ none
document_too_long =
    write_list_exact document (replicate 4 0) (omega arith)
      (tt, (tt, (tt, (tt, (omega arith, tt)))))
    ∙ ground (arith, document_fits)
