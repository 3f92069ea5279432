-- ===== src/Redis/InMemory.antt =====
-- A Redis whose store is a list of keys with what they hold and the times at which they end, the
-- newest first: the assumptions of the client can be met.
use pr_sentinel_backend.Base.{
  ℕ, suc, ◌+◌, ◌<◌, ◌≤◌, String, ◌≡◌, ◌≢◌, refl, sym, ◌∙◌, Bool, true, List, [], ◌∷◌, Option, none,
  some, if◌then◌else◌, ltb, str_eq, str_eq_refl, eq_iff, arith, Bool-cases, inl, inr,
}
use pr_sentinel_backend.Redis.{RedisClient}

-- A key holds a text or a number; without an end it stays.
pub record Entry : Type 0 where
  pub key : String
  pub value : Option String
  pub number : ℕ
  pub ends : Option ℕ

abbrev pub is_live : ℕ → Option ℕ → Bool
is_live now none = true
is_live now (some t) = ltb now t

abbrev pub live : ℕ → Entry → Option String
live now e = if is_live now e.ends then e.value else none

abbrev pub live_number : ℕ → Entry → ℕ
live_number now e = if is_live now e.ends then e.number else 0

abbrev pub live_end : ℕ → Entry → Option ℕ
live_end now e = if is_live now e.ends then e.ends else none

-- What the newest entry of a key says.
abbrev pub newest : {A : Type 0} → A → (Entry → A) → String → List Entry → A
newest missing read k [] = missing
newest missing read k (e ∷ s) = if str_eq e.key k then read e else newest missing read k s

abbrev pub get : ℕ → String → List Entry → Option String
get now k s = newest none (live now) k s

abbrev pub count : ℕ → String → List Entry → ℕ
count now k s = newest 0 (live_number now) k s

abbrev pub entry : String → Option String → ℕ → Option ℕ → Entry
entry k v n ends = record { key = k; value = v; number = n; ends = ends }

abbrev pub set_ex : ℕ → String → String → ℕ → List Entry → List Entry
set_ex now k v seconds s = entry k (some v) 0 (some (now + seconds)) ∷ s

-- A deleted key is covered by an entry that has ended.
abbrev pub del : String → List Entry → List Entry
del k s = entry k none 0 (some 0) ∷ s

abbrev pub incr : ℕ → String → List Entry → ℕ × List Entry
incr now k s =
    (suc (count now k s), entry k none (suc (count now k s)) (newest none (live_end now) k s) ∷ s)

abbrev pub expire : ℕ → String → ℕ → List Entry → List Entry
expire now k seconds s = entry k (get now k s) (count now k s) (some (now + seconds)) ∷ s

module _ {A : Type 0} (missing : A) (read : Entry → A) where
  pub newest-same :
      (k : String) (e : Entry) (s : List Entry) → e.key ≡ k → newest missing read k (e ∷ s) ≡ read e
  newest-same k e s same = rw (same) (rw (str_eq_refl k))

  pub newest-other :
      (k : String) (e : Entry) (s : List Entry)
      → k ≢ e.key
      → newest missing read k (e ∷ s) ≡ newest missing read k s
  newest-other k e s h = elim (Bool-cases (str_eq e.key k)) [
    | inl same ↦ absurd (h (sym ((eq_iff e.key k).0 same)))
    | inr other ↦ rw other
  ]

pub live-before :
    (now ends : ℕ) (k v : String) → now < ends → live now (entry k (some v) 0 (some ends)) ≡ some v
live-before now ends k v h = ground arith

pub live-after :
    (now ends : ℕ) (k : String) (v : Option String)
    → ends ≤ now
    → live now (entry k v 0 (some ends)) ≡ none
live-after now ends k v h = ground arith

pub live_number-before :
    (now ends n : ℕ) (k : String) (v : Option String)
    → now < ends
    → live_number now (entry k v n (some ends)) ≡ n
live_number-before now ends n k v h = ground arith

-- The end of a live key is not over.
pub live_number-live_end :
    (now n : ℕ) (k : String) (s : List Entry)
    → live_number now (entry k none n (newest none (live_end now) k s)) ≡ n
live_number-live_end now n k [] = refl
live_number-live_end now n k (e ∷ s) = elim (Bool-cases (str_eq e.key k)) [
  | inr other ↦ rw other (live_number-live_end now n k s)
  | inl same ↦ rw same (elim (Bool-cases (is_live now e.ends)) [
    | inl lives ↦ rw lives (rw lives)
    | inr over ↦ rw over
  ])
]

-- What is live later is live now.
is_live-before :
    (now later : ℕ) (ends : Option ℕ)
    → now ≤ later
    → is_live later ends ≡ true
    → is_live now ends ≡ true
is_live-before now later none h l = refl
is_live-before now later (some t) h l = ground arith

pub live_number-incr :
    (now later : ℕ) (k : String) (s : List Entry)
    → now ≤ later
    → 0 < count later k s
    → live_number later (entry k none (suc (count now k s)) (newest none (live_end now) k s))
      ≡ suc (count later k s)
live_number-incr now later k [] h there = absurd (omega arith)
live_number-incr now later k (e ∷ s) h there = elim (Bool-cases (str_eq e.key k)) [
  | inr other ↦ rw other (live_number-incr now later k s h (rw other at there))
  | inl same ↦ elim (Bool-cases (is_live later e.ends)) [
    | inl lives ↦ rw (same, is_live-before now later e.ends h lives) (rw lives)
    | inr over ↦ absurd (omega (arith, rw (same, over) at there))
  ]
]

instance abbrev pub in_memory : RedisClient
in_memory = record {
  Store = List Entry;
  get = get;
  set_ex = set_ex;
  del = del;
  count = count;
  incr = incr;
  expire = expire;
  get-set_ex = λ now later seconds k v s before h.
      newest-same none (live later) k (entry k (some v) 0 (some (now + seconds))) s refl
      ∙ live-before later (now + seconds) k v before;
  get-set_ex_expired = λ now later seconds k v s h.
      newest-same none (live later) k (entry k (some v) 0 (some (now + seconds))) s refl
      ∙ live-after later (now + seconds) k (some v) h;
  get-set_ex_other = λ now later seconds k j v s h.
      newest-other none (live later) j (entry k (some v) 0 (some (now + seconds))) s h;
  get-del = λ now k s.
      newest-same none (live now) k (entry k none 0 (some 0)) s refl
      ∙ live-after now 0 k none (omega arith);
  get-del_other = λ now k j s h. newest-other none (live now) j (entry k none 0 (some 0)) s h;
  incr-count = λ now k s. refl;
  count-incr = λ now k s.
      newest-same 0 (live_number now) k
        (entry k none (suc (count now k s)) (newest none (live_end now) k s)) s refl
      ∙ live_number-live_end now (suc (count now k s)) k s;
  count-incr_later = λ now later k s h there.
      newest-same 0 (live_number later) k
        (entry k none (suc (count now k s)) (newest none (live_end now) k s)) s refl
      ∙ live_number-incr now later k s h there;
  count-expire = λ now later seconds k s h before.
      newest-same 0 (live_number later) k
        (entry k (get now k s) (count now k s) (some (now + seconds))) s refl
      ∙ live_number-before later (now + seconds) (count now k s) k (get now k s) before;
}
