-- ===== src/Probe/Log/Window.antt =====
-- The log refines the list of all connections, numbered from 0: it is the end of that list.
use flux_parsing_daemon.Base.{
  ℕ, zero, suc, ◌+◌, ◌-◌, ◌≡◌, refl, sym, ap, subst, ◌∙◌, arith, List, [], ◌∷◌, ◌++◌, append-nil,
  append_assoc, length, length-append, last, last-last, pop_front_to-last, drop-nil,
}
use Prim.Native.Nat.{max}
use flux_parsing_daemon.Probe.Verdict.{Scores}
use flux_parsing_daemon.Probe.Log.{ConnectionRecord, ConnectionLog, with_capacity, push, snapshot}

module _ (s : Scores) where
  -- The connections with their numbers, from `n` on.
  unfoldable pub numbered : ℕ → List (ConnectionRecord s) → List (ConnectionRecord s)
  numbered n [] = []
  numbered n (r ∷ rs) = record r { seq = n } ∷ numbered (n + 1) rs

  unfoldable pub push_all : ConnectionLog s → List (ConnectionRecord s) → ConnectionLog s
  push_all log [] = log
  push_all log (r ∷ rs) = push_all (push s log r).1 rs

  -- The log holds the end of `all` and has given as many numbers.
  unfoldable pub IsWindow : ℕ → List (ConnectionRecord s) → ConnectionLog s → Type 0
  IsWindow capacity all log =
      (log.records ≡ last capacity all) × (log.next_seq ≡ length all) × (log.capacity ≡ capacity)

  pub push-IsWindow :
      (capacity : ℕ) (all : List (ConnectionRecord s)) (log : ConnectionLog s)
      (r : ConnectionRecord s)
      → IsWindow capacity all log
      → IsWindow capacity (all ++ (record r { seq = length all } ∷ [])) (push s log r).1
  unfolding IsWindow push
  push-IsWindow capacity all log r (records, next, same) = (
    rw (records, next, same)
        (pop_front_to-last _ capacity (last capacity all ++ (record r { seq = length all } ∷ []))
            (omega arith)
          ∙ last-last capacity all (record r { seq = length all })),
    omega (arith, next, length-append all (record r { seq = length all } ∷ [])),
    same,
  )

  pub push_all-IsWindow :
      (capacity : ℕ) (rs all : List (ConnectionRecord s)) (log : ConnectionLog s)
      → IsWindow capacity all log
      → IsWindow capacity (all ++ numbered (length all) rs) (push_all log rs)
  unfolding push_all numbered
  push_all-IsWindow capacity [] all log w =
      subst (λ xs. IsWindow capacity xs log) (sym (append-nil all)) w
  push_all-IsWindow capacity (r ∷ rs) all log w =
      let step =
        push_all-IsWindow capacity rs (all ++ (record r { seq = length all } ∷ [])) (push s log r).1
          (push-IsWindow capacity all log r w) in
      subst (λ xs. IsWindow capacity xs (push_all (push s log r).1 rs))
        (ap (λ n. (all ++ (record r { seq = length all } ∷ [])) ++ numbered n rs)
            (length-append all (record r { seq = length all } ∷ []))
          ∙ append_assoc all (record r { seq = length all } ∷ []) (numbered (length all + 1) rs))
        step

  pub length-numbered :
      (n : ℕ) (rs : List (ConnectionRecord s)) → length (numbered n rs) ≡ length rs
  unfolding numbered
  length-numbered n [] = refl
  length-numbered n (r ∷ rs) = omega (arith, length-numbered (n + 1) rs)

  pub from_empty :
      (capacity : ℕ) (rs : List (ConnectionRecord s)) (log : ConnectionLog s)
      → IsWindow capacity [] log
      → (snapshot s (push_all log rs) ≡ last capacity (numbered 0 rs))
        × ((push_all log rs).next_seq ≡ length rs)
  unfolding snapshot IsWindow
  from_empty capacity rs log w =
      let (records, next, same) = push_all-IsWindow capacity rs [] log w in
      (records, next ∙ length-numbered 0 rs)

  -- After any connections, the snapshot is the end of their list, numbered from 0: the latest of them, as
  -- many as the capacity, one where that is 0, and the next number is how many there were.
  pub snapshot-last :
      (capacity : ℕ) (rs : List (ConnectionRecord s))
      → (snapshot s (push_all (with_capacity s capacity) rs)
          ≡ last (with_capacity s capacity).capacity (numbered 0 rs))
        × ((push_all (with_capacity s capacity) rs).next_seq ≡ length rs)
        × ((with_capacity s capacity).capacity ≡ max 1 capacity)
  unfolding with_capacity IsWindow
  snapshot-last zero rs =
      let (a, b) = from_empty 1 rs (with_capacity s zero) (sym (drop-nil (0 - 1)), refl, refl) in
      (a, b, omega arith)
  snapshot-last (suc n) rs =
      let (a, b) =
        from_empty (suc n) rs (with_capacity s (suc n)) (sym (drop-nil (0 - suc n)), refl, refl) in
      (a, b, omega arith)
