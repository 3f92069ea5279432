-- ===== src/Prisma/InMemory.antt =====
-- Tables as lists, with a number above all that are taken as the new uuid: the assumptions of the
-- client can be met, and the services run on it.
use pr_sentinel_backend.Base.{
  ℕ, suc, ◌+◌, ◌≢◌, ◌<◌, refl, not, List, [], ◌∷◌, ◌++◌, arith, All, keep, map_where,
}
use pr_sentinel_backend.Prisma.{Prisma}
use Prim.Native.String.{◌++◌ as append}

abbrev pub top : List ℕ → ℕ
top [] = 0
top (i ∷ is) = i + top is

abbrev pub next_uuid : List ℕ → ℕ
next_uuid taken = suc (top taken)

pub next_uuid_above : (n : ℕ) (taken : List ℕ) → top taken < n → All (λ i. i ≢ n) taken
next_uuid_above n [] h = tt
next_uuid_above n (i ∷ is) h = (omega arith, next_uuid_above n is (omega arith))

instance abbrev pub in_memory : Prisma
in_memory = record {
  Table = List;
  rows = λ t. t;
  create = λ r t. t ++ r ∷ [];
  update_many = map_where;
  delete_many = λ p t. keep (λ r. not (p r)) t;
  uuid = next_uuid;
  not_unique_message = λ column. append "Unique constraint failed on " column;
  rows-create = λ r t. refl;
  rows-update_many = λ p f t. refl;
  rows-delete_many = λ p t. refl;
  uuid_fresh = λ taken. next_uuid_above (next_uuid taken) taken (omega arith);
}
