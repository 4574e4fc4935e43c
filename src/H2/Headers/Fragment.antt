-- ===== src/H2/Headers/Fragment.antt =====
-- Where the header block fragment stands in a HEADERS payload.
use flux_parsing_daemon.Base.{
  ℕ, ◌+◌, ◌-◌, ◌≡◌, refl, ap, ◌∙◌, arith, bit_and, List, [], ◌∷◌, ◌++◌, some, length, length-append,
  take-length, drop, drop-length, le→leb, sym, Bool-cases, inl, inr, ◌==◌, if◌then◌else◌,
}
use flux_parsing_daemon.H2.Frame.{Frame}
use flux_parsing_daemon.H2.Headers.{
  flag_padded, flag_priority, after_pad_length, after_priority, without_padding, without_padding_of,
  fragment_of, header_block_fragment,
}

-- RFC 7540 section 6.2: the parts of the payload that the flags announce, around the fragment.
unfoldable pub pad_field : ℕ → List ℕ → List ℕ
pad_field flags padding = if bit_and flags flag_padded == 0 then [] else length padding ∷ []

unfoldable pub priority_field : ℕ → List ℕ → List ℕ
priority_field flags field = if bit_and flags flag_priority == 0 then [] else field

unfoldable pub padding_field : ℕ → List ℕ → List ℕ
padding_field flags padding = if bit_and flags flag_padded == 0 then [] else padding

unfoldable pub headers_payload : ℕ → List ℕ → List ℕ → List ℕ → List ℕ
headers_payload flags priority fragment padding =
    pad_field flags padding
    ++ (priority_field flags priority ++ (fragment ++ padding_field flags padding))

without_padding-append :
    (fragment padding : List ℕ) → without_padding (length padding) (fragment ++ padding) ≡ fragment
unfolding without_padding
without_padding-append fragment padding =
    let e = length-append fragment padding in
    rw (le→leb (length padding) (length (fragment ++ padding)) (omega (arith, e)), ends e)
      (take-length fragment padding)
  where
    ends :
        length (fragment ++ padding) ≡ length fragment + length padding
        → length (fragment ++ padding) - length padding ≡ length fragment
    ends e = omega arith

after_priority-field :
    (flags : ℕ) (priority rest : List ℕ)
    → length priority ≡ 5
    → after_priority flags (priority_field flags priority ++ rest) ≡ some rest
unfolding after_priority priority_field
after_priority-field flags priority rest h = elim (Bool-cases (bit_and flags flag_priority == 0)) [
  | inl absent ↦ rw absent refl
  | inr present ↦
      rw
        (present, le→leb 5 (length (priority ++ rest)) (omega (arith, length-append priority rest)))
        (ap some (ap (λ n. drop n (priority ++ rest)) (sym h) ∙ drop-length priority rest))
]

-- The fragment of the payload laid out as the flags say.
fragment_of-payload :
    (flags : ℕ) (priority fragment padding : List ℕ)
    → length priority ≡ 5
    → fragment_of flags (after_pad_length flags (headers_payload flags priority fragment padding))
      ≡ fragment
unfolding fragment_of after_pad_length headers_payload pad_field padding_field without_padding_of
fragment_of-payload flags priority fragment padding h =
    elim (Bool-cases (bit_and flags flag_padded == 0)) [
      | inl absent ↦
          rw (absent, after_priority-field flags priority (fragment ++ []) h)
            (without_padding-append fragment [])
      | inr present ↦
          rw (present, after_priority-field flags priority (fragment ++ padding) h)
            (without_padding-append fragment padding)
    ]

-- Whatever the flags: in a payload laid out as they say, with a priority field of five octets, the fragment
-- is found between the other fields.
pub header_block_fragment-payload :
    (f : Frame) (priority fragment padding : List ℕ)
    → f.payload ≡ headers_payload f.flags priority fragment padding
    → length priority ≡ 5
    → header_block_fragment f ≡ fragment
unfolding header_block_fragment
header_block_fragment-payload f priority fragment padding e h =
    ap (λ p. fragment_of f.flags (after_pad_length f.flags p)) e
    ∙ fragment_of-payload f.flags priority fragment padding h
