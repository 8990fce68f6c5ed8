-- ===== src/Service/Pool/Lending.antt =====
-- The pool with its holders: no service is lent twice.
use mif.Prelude.{
  ltb, leb, Bool-cases, Result, ok, throws, length, All, ℕ, ◌≤◌, ◌≡◌, refl, inl, inr, true, false,
  List, [], ◌∷◌, arith, bytes_eq, nat_eq,
}
use mif.Prelude.Map.{emplace}
use mif.Service.Pool.{
  Check, Services, Scanned, found, exhausted, raised, scan, has, hold, make_new, get_service,
  release,
}
use mif.Service.Pool.Entries.{
  NotIn, Distinct, Free, scan-All, scan-found, length-scan-le, length-mark, emplace-All,
  length-emplace-le, mark-true-Free, remove, remove-Distinct, mark-false-Free, remove-Free,
}

-- The invariant of a pool and the services that are held
pub record Inv (limit : ℕ) (m : Services) (holders : List ℕ) : Type 0 where
  pub distinct : Distinct holders
  pub free : All (Free holders) m
  pub size : length m ≤ limit

-- The holders after a call
abbrev pub lent : Result ℕ → List ℕ → List ℕ
lent (ok s) holders = s ∷ holders
lent (throws e) holders = holders

-- The result of a call, with the pool that it leaves, from a pool and its holders
abbrev Keeps : ℕ → List ℕ → Result ℕ × Services → Type 0
Keeps limit holders (r, m) = Inv limit m (lent r holders)

hold-Keeps :
    (limit s : ℕ) (m : Services) (holders : List ℕ)
    → Inv limit m holders
    → NotIn s holders
    → Keeps limit holders (hold s m)
unfolding hold
hold-Keeps limit s m holders v n = elim (Bool-cases (has s m)) [
  | inr absent ↦ rw absent v
  | inl present ↦ rw present (record {
    distinct = (n, v.distinct);
    free = mark-true-Free s holders m v.free;
    size = omega (arith, length-mark s true m, v.size);
  })
]

make_new-Keeps :
    (limit : ℕ) (made : Result ℕ) (m : Services) (holders : List ℕ)
    → Inv limit m holders
    → ((s : ℕ) → made ≡ ok s → NotIn s holders)
    → Keeps limit holders (make_new limit made m)
unfolding make_new
make_new-Keeps limit (throws e) m holders v fresh = ground arith
make_new-Keeps limit (ok s) m holders v fresh = elim (Bool-cases (leb limit (length m))) [
  | inl full ↦ rw full v
  | inr room ↦ rw room (
      hold-Keeps limit s (emplace ltb s false m) holders
        (record {
          distinct = v.distinct;
          free = emplace-All (Free holders) s false m (λ e. fresh s refl) v.free;
          size = ground (arith, length-emplace-le s false m);
        })
        (fresh s refl))
]

scanned-Keeps :
    (check : ℕ → Check) (limit : ℕ) (made : Result ℕ) (m : Services) (holders : List ℕ)
    → Inv limit m holders
    → Inv limit (scan check m).0 holders
scanned-Keeps check limit made m holders v = record {
  distinct = v.distinct;
  free = scan-All (Free holders) check m v.free;
  size = omega (arith, length-scan-le check m, v.size);
}

-- `GetService` keeps the invariant, if the factory makes a service that nobody holds: the one that
-- it lends was held by nobody, the pool stays within its limit, and every entry that is not busy is
-- held by nobody.
pub get_service-Inv :
    (check : ℕ → Check) (limit : ℕ) (made : Result ℕ) (m : Services) (holders : List ℕ)
    → Inv limit m holders
    → ((s : ℕ) → made ≡ ok s → NotIn s holders)
    → let (r, m') = get_service check limit made m in Inv limit m' (lent r holders)
unfolding get_service
get_service-Inv check limit made m holders v fresh = go (scan check m).1 refl
  where
    kept : Inv limit (scan check m).0 holders
    kept = scanned-Keeps check limit made m holders v

    go : (r : Scanned) → (scan check m).1 ≡ r → Keeps limit holders (get_service check limit made m)
    go (found s) e =
        rw (e, get_service)
          (hold-Keeps limit s (scan check m).0 holders kept
            (scan-found (Free holders) check m s v.free e refl))
    go exhausted e =
        rw (e, get_service) (make_new-Keeps limit made (scan check m).0 holders kept fresh)
    go (raised x) e = rw (e, get_service) kept

-- The end of a holder keeps it.
pub release-Inv :
    (limit s : ℕ) (m : Services) (holders : List ℕ)
    → Inv limit m holders
    → Inv limit (release s m) (remove s holders)
unfolding release
release-Inv limit s m holders v = elim (Bool-cases (has s m)) [
  | inr absent ↦ rw absent (record {
    distinct = remove-Distinct s holders v.distinct;
    free = remove-Free s holders m v.free;
    size = v.size;
  })
  | inl present ↦ rw present (record {
    distinct = remove-Distinct s holders v.distinct;
    free = mark-false-Free s holders m v.distinct v.free;
    size = omega (arith, length-mark s false m, v.size);
  })
]

-- The histories of a pool: calls of `GetService`, whatever the checks say and whatever the factory
-- makes or throws, as long as it makes no service that is held, and ends of holders.
pub data Reach (limit : ℕ) : Services → List ℕ → Type 0 where
  begun : Reach limit [] []
  lends :
      {m : Services} {holders : List ℕ} (check : ℕ → Check) (made : Result ℕ)
      → Reach limit m holders
      → ((s : ℕ) → made ≡ ok s → NotIn s holders)
      → Reach limit
          (get_service check limit made m).1
          (lent (get_service check limit made m).0 holders)
  ends :
      {m : Services} {holders : List ℕ} (s : ℕ)
      → Reach limit m holders
      → Reach limit (release s m) (remove s holders)

-- As long as the factory makes no service that is held: at any time no service is lent to two
-- holders, no entry that is not busy is held, and the pool has no more entries than its limit.
pub Reach-Inv :
    {limit : ℕ} {m : Services} {holders : List ℕ} → Reach limit m holders → Inv limit m holders
Reach-Inv begun = record { distinct = tt; free = tt; size = omega arith }
Reach-Inv {limit} (lends {m} {holders} check made r fresh) =
    get_service-Inv check limit made m holders (Reach-Inv r) fresh
Reach-Inv {limit} (ends {m} {holders} s r) = release-Inv limit s m holders (Reach-Inv r)
