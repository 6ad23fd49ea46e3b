-- ===== src/Store/State/Inflight.antt =====
-- The counters of calls in flight of internal/store/state.go.
use atomhub.Prelude.{ℕ, ◌+◌, ◌-◌, ◌≡◌, refl, List, [], ◌∷◌, arith, ◌==◌, if◌then◌else◌}
use atomhub.Server.{Server}
use atomhub.Store.State.{
  count, set_count, delete_count, inflight_of, increment_inflight, decrement_inflight,
}

pub count-set_count :
    (k j n : ℕ) (m : List (ℕ × ℕ)) → count (set_count k n m) j ≡ (if k == j then n else count m j)
unfolding set_count
count-set_count k j n [] = refl
count-set_count k j n ((i, v) ∷ m) = ground (arith, count-set_count k j n m)

pub count-delete_count :
    (k j : ℕ) (m : List (ℕ × ℕ)) → count (delete_count k m) j ≡ (if k == j then 0 else count m j)
unfolding delete_count
count-delete_count k j [] = ground arith
count-delete_count k j ((i, v) ∷ m) = ground (arith, count-delete_count k j m)

-- `IncrementInflight` adds one to the key's counter, and changes no other.
pub increment_inflight_lem :
    (k j : ℕ) (s : Server)
    → inflight_of j (increment_inflight k s).1
      ≡ (if k == j then inflight_of k s + 1 else inflight_of j s)
unfolding increment_inflight
increment_inflight_lem k j s = count-set_count k j _ s.inflight

-- `DecrementInflight` takes one off the key's counter, down to 0, and changes no other.
pub decrement_inflight_lem :
    (k j : ℕ) (s : Server)
    → inflight_of j (decrement_inflight k s).1
      ≡ (if k == j then inflight_of k s - 1 else inflight_of j s)
unfolding decrement_inflight
decrement_inflight_lem k j s =
    ground (
      arith,
      count-set_count k j (inflight_of k s - 1) s.inflight,
      count-delete_count k j s.inflight,
    )
