-- ===== src/H2/Hpack/Huffman/Codes.antt =====
-- The code table against the decode tree: every code of an octet leads from the root to its leaf, and the
-- padding stays inside the tree. Both are checked by evaluation.
use flux_parsing_daemon.Base.{
  ℕ, zero, suc, ◌+◌, ◌-◌, ◌^◌, ◌<◌, ◌≡◌, ◌≢◌, refl, ap, ◌∙◌, arith, Bool, true, false, ◌&&◌, List,
  [], ◌∷◌, ◌++◌, Option, none, some, Result, ok, ◌>>=◌, length, is_empty, get_elem?, ◌==◌, ==→eq,
  ne→==,
}
use flux_parsing_daemon.Base.Bits.{holds_below, holds_below_lem}
use native.Mathlib.Nat.{mod-eq_of_lt}
use flux_parsing_daemon.Base.Masks.{bits_of, length-bits_of}
use flux_parsing_daemon.H2.Hpack.{HpackError}
use flux_parsing_daemon.H2.Hpack.HuffmanTable.{huffman}
use flux_parsing_daemon.H2.Hpack.Huffman.{
  ℤ, pos, negsuc, Walk, add_code, add_codes, child_of, set_slot, tree, slot_at, follow, step,
}
use flux_parsing_daemon.H2.Hpack.Huffman.Bits.{walk, entry_bits, entry_fits, padding}

-- Digits that lead from a slot to the leaf of `symbol`; `go` reads on from a node.
lands : Option ℤ → List ℕ → ℕ → (ℕ → Bool) → Bool
lands none bits symbol go = false
lands (some (pos zero)) bits symbol go = false
lands (some (pos (suc next))) bits symbol go = go (suc next)
lands (some (negsuc s)) bits symbol go = is_empty bits && (s == symbol)

unfoldable leads : List ℕ → ℕ → ℕ → Bool
unfolding lands
leads [] at symbol = false
leads (bit ∷ bits) at symbol =
    lands (slot_at tree at bit) bits symbol (λ next. leads bits next symbol)

-- Ones that lead to no leaf.
inside : Option ℤ → (ℕ → Bool) → Bool
inside none go = false
inside (some (pos zero)) go = false
inside (some (pos (suc next))) go = go (suc next)
inside (some (negsuc s)) go = false

unfoldable stays : List ℕ → ℕ → Bool
unfolding inside
stays [] at = true
stays (bit ∷ bits) at = (bit == 1) && inside (slot_at tree at bit) (stays bits)

entry_table : holds_below (λ c. entry_fits (get_elem? huffman c)) 256 ≡ true
unfolding entry_fits holds_below huffman
entry_table = refl

leads_table : holds_below (λ c. leads (entry_bits (get_elem? huffman c)) 0 c) 256 ≡ true
unfolding leads holds_below entry_bits bits_of slot_at tree add_codes huffman add_code set_slot
    child_of
leads_table = refl

stays_table : holds_below (λ b. stays (padding b) 0) 8 ≡ true
unfolding stays holds_below padding bits_of slot_at tree add_codes huffman add_code set_slot
    child_of
stays_table = refl

-- The walk behind a symbol.
abbrev pub after_symbol : ℕ → Walk → Walk
after_symbol c w = record {
  at = 0;
  bits_since_symbol = 0;
  padding_is_all_ones = true;
  out = w.out ++ (c ∷ []);
}

follow_lands :
    (slot : Option ℤ) (bits : List ℕ) (c : ℕ) (w : Walk)
    → c < 256
    → ((next : ℕ) (v : Walk)
        → leads bits next c ≡ true
        → v.at ≡ next
        → v.out ≡ w.out
        → walk bits v ≡ ok (after_symbol c w))
    → lands slot bits c (λ next. leads bits next c) ≡ true
    → (follow slot w >>= walk bits) ≡ ok (after_symbol c w)
unfolding follow lands walk ◌>>=◌
follow_lands none bits c w small ih h = cc
follow_lands (some (pos zero)) bits c w small ih h = cc
follow_lands (some (pos (suc next))) bits c w small ih h = ih (suc next) _ h refl refl
follow_lands (some (negsuc s)) [] c w small ih h =
    rw (same, ne→== c 256 other, mod-eq_of_lt small) refl
  where
    same : s ≡ c
    same = ==→eq s c h

    other : c ≢ 256
    other = λ e. omega (arith, e, small)
follow_lands (some (negsuc s)) (bit ∷ bits) c w small ih h = cc

walk-leads :
    (bits : List ℕ) (c : ℕ) (w : Walk)
    → c < 256
    → leads bits w.at c ≡ true
    → walk bits w ≡ ok (after_symbol c w)
unfolding leads walk step
walk-leads [] c w small h = cc
walk-leads (bit ∷ bits) c w small h =
    follow_lands (slot_at tree w.at bit) bits c _ small
      (λ next v l e o.
        walk-leads bits c v small (rw e l)
        ∙ ap
            (λ out. ok (record v {
              at = 0;
              bits_since_symbol = 0;
              padding_is_all_ones = true;
              out = out ++ (c ∷ []);
            }))
            o)
      h

-- The walk behind `count` ones that lead to no leaf.
abbrev pub Stayed : ℕ → Walk → Result HpackError Walk → Type 0
Stayed count w m =
    (v : Walk) × (m ≡ ok v)
    × (v.bits_since_symbol ≡ w.bits_since_symbol + count)
    × (v.padding_is_all_ones ≡ true)
    × (v.out ≡ w.out)

follow_inside :
    (slot : Option ℤ) (bits : List ℕ) (w : Walk)
    → ((next : ℕ)
        → stays bits next ≡ true
        → Stayed (length bits) w (walk bits (record w { at = next })))
    → inside slot (stays bits) ≡ true
    → Stayed (length bits) w (follow slot w >>= walk bits)
unfolding follow inside ◌>>=◌
follow_inside none bits w ih h = cc
follow_inside (some (pos zero)) bits w ih h = cc
follow_inside (some (pos (suc next))) bits w ih h = ih (suc next) h
follow_inside (some (negsuc s)) bits w ih h = cc

walk-stays :
    (bits : List ℕ) (w : Walk)
    → w.padding_is_all_ones ≡ true
    → stays bits w.at ≡ true
    → Stayed (length bits) w (walk bits w)
unfolding stays walk step
walk-stays [] w clean h = (w, refl, omega arith, clean, refl)
walk-stays (zero ∷ bits) w clean h = cc
walk-stays (suc (suc bit) ∷ bits) w clean h =
    cc (rw (ne→== (suc (suc bit)) 1 (λ e. omega (arith, e))) at h)
walk-stays (suc zero ∷ bits) w clean h =
    let (v, walked, count, ones, out) =
      follow_inside (slot_at tree w.at 1) bits
        (record w { bits_since_symbol = w.bits_since_symbol + 1 })
        (λ next l.
          walk-stays bits (record w { at = next; bits_since_symbol = w.bits_since_symbol + 1 })
            clean l)
        h in
    (v, walked, omega (arith, count), ones, out)

pub symbol_fits : (c : ℕ) → c < 256 → entry_fits (get_elem? huffman c) ≡ true
symbol_fits c h = holds_below_lem _ 256 entry_table c h

pub walk_symbol :
    (c : ℕ) (w : Walk)
    → c < 256
    → w.at ≡ 0
    → walk (entry_bits (get_elem? huffman c)) w ≡ ok (after_symbol c w)
walk_symbol c w h e =
    walk-leads _ c w h (
      rw e
        (holds_below_lem (λ d. leads (entry_bits (get_elem? huffman d)) 0 d) 256 leads_table c h))

pub walk-padding :
    (b : ℕ) (w : Walk)
    → b < 8
    → w.at ≡ 0
    → w.padding_is_all_ones ≡ true
    → Stayed (length (padding b)) w (walk (padding b) w)
walk-padding b w h e clean =
    walk-stays (padding b) w clean
      (rw e (holds_below_lem (λ d. stays (padding d) 0) 8 stays_table b h))

pub length-padding : (b : ℕ) → length (padding b) < 8
unfolding padding
length-padding zero = omega arith
length-padding (suc b) = omega (arith, length-bits_of (8 - suc b) (2 ^ (8 - suc b) - 1))
