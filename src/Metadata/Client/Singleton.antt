-- ===== src/Metadata/Client/Singleton.antt =====
-- `GetClient` of pkg/metadata/client.go: the client of the process, made by the first of the goroutines
-- that ask for it. Each goroutine moves on its own, a shared access at a time; a test under the lock
-- and the unlock after it are one step. A client is the number of clients made before it.
use istio_llm_filter.Common.{
  ℕ, ◌+◌, ◌-◌, ◌≡◌, ◌≢◌, ◌⊎◌, refl, sym, ap, ◌∙◌, inl, inr, String, Bool, true, false, Option, none,
  some, ◌==◌, ok, panic, if◌then◌else◌, arith,
}
use istio_llm_filter.Common.Int.{ℤ}
use istio_llm_filter.Metadata.Environment.{Env}
use istio_llm_filter.Metadata.Client.{Client, new_client}

-- `globalClient`, how often `NewClient` has returned, and who holds `globalClientMu`.
pub record Shared : Type 0 where
  pub global : Option ℕ
  pub made : ℕ
  pub readers : ℕ
  pub writer : Option ℕ

-- Where a call of `GetClient` stands.
pub data Pc : Type 0 where
  start : Pc
  reading : Pc  -- under the read lock
  found : Pc  -- after its release, before `return globalClient`
  missed : Pc  -- before `Lock`
  writing : Pc  -- under the lock
  creating : Pc  -- before `NewClient`
  stored : Pc
  returned : Option ℕ → Pc
  crashed : Pc

module _ (chan_limit : ℕ) (parse_duration : String → Option ℤ) (env : Env) where
  pub data Move (i : ℕ) (m : Shared) : Pc → Shared → Pc → Type 0 where
    r_lock : m.writer ≡ none → Move i m start (record m { readers = m.readers + 1 }) reading
    hit :
        (c : ℕ) → m.global ≡ some c → Move i m reading (record m { readers = m.readers - 1 }) found
    miss : m.global ≡ none → Move i m reading (record m { readers = m.readers - 1 }) missed
    give : Move i m found m (returned m.global)
    lock : m.writer ≡ none → m.readers ≡ 0 → Move i m missed (record m { writer = some i }) writing
    late :
        (c : ℕ)
        → m.global ≡ some c
        → Move i m writing (record m { writer = none }) (returned m.global)
    first : m.global ≡ none → Move i m writing m creating
    make :
        (c : Client)
        → new_client chan_limit parse_duration env ≡ ok c
        → Move i m creating (record m { global = some m.made; made = m.made + 1 }) stored
    fail :
        new_client chan_limit parse_duration env ≡ panic
        → Move i m creating (record m { writer = none }) crashed
    unlock : Move i m stored (record m { writer = none }) (returned m.global)

pub record System : Type 0 where
  pub mem : Shared
  pub pc : ℕ → Pc

abbrev pub update : (ℕ → Pc) → ℕ → Pc → ℕ → Pc
update pc i p j = if j == i then p else pc j

-- Before the first call.
abbrev pub before_all : System
before_all = record {
  mem = record { global = none; made = 0; readers = 0; writer = none };
  pc = λ i. start;
}

module _ (chan_limit : ℕ) (parse_duration : String → Option ℤ) (env : Env) where
  pub data Reach : System → Type 0 where
    begin : Reach before_all
    move :
        {s : System} {m : Shared} {p : Pc} (i : ℕ)
        → Reach s
        → Move chan_limit parse_duration env i s.mem (s.pc i) m p
        → Reach (record { mem = m; pc = update s.pc i p })

-- The goroutines that hold the write lock.
abbrev holds : Pc → Bool
holds writing = true
holds creating = true
holds stored = true
holds p = false

-- What a goroutine knows of the client.
abbrev Knows : Shared → Pc → Type 0
Knows m found = m.global ≡ some 0
Knows m creating = m.global ≡ none
Knows m stored = m.global ≡ some 0
Knows m (returned r) = (r ≡ some 0) × (m.global ≡ some 0)
Knows m p = Unit

record Inv (m : Shared) (pc : ℕ → Pc) : Type 0 where
  once : ((m.global ≡ none) × (m.made ≡ 0)) ⊎ ((m.global ≡ some 0) × (m.made ≡ 1))
  owner : (i : ℕ) → holds (pc i) ≡ true → m.writer ≡ some i
  knows : (i : ℕ) → Knows m (pc i)

module _ {m : Shared} {pc : ℕ → Pc} (inv : Inv m pc) (i : ℕ) (chan_limit : ℕ)
    (parse_duration : String → Option ℤ) (env : Env) where
  Move-once :
      {p p' : Pc} {m' : Shared}
      → Move chan_limit parse_duration env i m p m' p'
      → Knows m p
      → ((m'.global ≡ none) × (m'.made ≡ 0)) ⊎ ((m'.global ≡ some 0) × (m'.made ≡ 1))
  Move-once (r_lock e) k = inv.once
  Move-once (hit c e) k = inv.once
  Move-once (miss e) k = inv.once
  Move-once give k = inv.once
  Move-once (lock e f) k = inv.once
  Move-once (late c e) k = inv.once
  Move-once (first e) k = inv.once
  Move-once (make c e) k = elim inv.once [
    | inl (g, n) ↦ inr (ap some n, omega arith)
    | inr (g, n) ↦ absurd (cc (g, k))
  ]
  Move-once (fail e) k = inv.once
  Move-once unlock k = inv.once

  Move-owner :
      {p p' : Pc} {m' : Shared}
      → Move chan_limit parse_duration env i m p m' p'
      → pc i ≡ p
      → (j : ℕ) → holds (update pc i p' j) ≡ true
      → m'.writer ≡ some j
  Move-owner (r_lock e) here j h = ground (arith, inv.owner j, inv.owner i)
  Move-owner (hit c e) here j h = ground (arith, inv.owner j, inv.owner i)
  Move-owner (miss e) here j h = ground (arith, inv.owner j, inv.owner i)
  Move-owner give here j h = ground (arith, inv.owner j, inv.owner i)
  Move-owner (lock e f) here j h = ground (arith, inv.owner j, inv.owner i)
  Move-owner (late c e) here j h = ground (arith, inv.owner j, inv.owner i)
  Move-owner (first e) here j h = ground (arith, inv.owner j, inv.owner i)
  Move-owner (make c e) here j h = ground (arith, inv.owner j, inv.owner i)
  Move-owner (fail e) here j h = ground (arith, inv.owner j, inv.owner i)
  Move-owner unlock here j h = ground (arith, inv.owner j, inv.owner i)

  Move-Knows :
      {p p' : Pc} {m' : Shared}
      → Move chan_limit parse_duration env i m p m' p'
      → pc i ≡ p
      → (j : ℕ) → Knows m' (update pc i p' j)
  Move-Knows (r_lock e) here j = ground (arith, inv.knows j)
  Move-Knows (hit c e) here j = ground (arith, inv.knows j, inv.once)
  Move-Knows (miss e) here j = ground (arith, inv.knows j)
  Move-Knows give here j = ground (arith, inv.knows j, inv.knows i)
  Move-Knows (lock e f) here j = ground (arith, inv.knows j)
  Move-Knows (late c e) here j = ground (arith, inv.knows j, inv.once)
  Move-Knows (first e) here j = ground (arith, inv.knows j)
  Move-Knows (make c e) here j =
      ground (arith, inv.knows j, inv.knows i, inv.once, inv.owner i, inv.owner j)
  Move-Knows (fail e) here j = ground (arith, inv.knows j)
  Move-Knows unlock here j = ground (arith, inv.knows j, inv.knows i)

module _ (chan_limit : ℕ) (parse_duration : String → Option ℤ) (env : Env) where
  Reach-Inv : (s : System) → Reach chan_limit parse_duration env s → Inv s.mem s.pc
  Reach-Inv _ begin = record {
    once = inl (refl, refl);
    owner = λ i h. absurd (cc h);
    knows = λ i. tt;
  }
  Reach-Inv _ (move {s} i r step) =
      let inv = Reach-Inv s r in
      record {
        once = Move-once inv i chan_limit parse_duration env step (inv.knows i);
        owner = Move-owner inv i chan_limit parse_duration env step refl;
        knows = Move-Knows inv i chan_limit parse_duration env step refl;
      }

  -- However many goroutines call `GetClient` and however their steps interleave: when two of the calls
  -- have returned, `NewClient` has returned exactly once, and both calls gave that client, which is
  -- not nil and still the global one.
  pub get_client_once :
      (s : System) (i j : ℕ) (a b : Option ℕ)
      → Reach chan_limit parse_duration env s
      → s.pc i ≡ returned a
      → s.pc j ≡ returned b
      → (s.mem.made ≡ 1) × (a ≡ b) × (a ≢ none) × (s.mem.global ≡ a)
  get_client_once s i j a b r at_i at_j =
      let inv = Reach-Inv s r in
      let (given_a, global) = unfold_knows s i a at_i (inv.knows i) in
      let (given_b, _) = unfold_knows s j b at_j (inv.knows j) in
      (
        elim inv.once [ inl (missing, n) ↦ absurd (cc (missing, global)) | inr (there, n) ↦ n ],
        given_a ∙ sym given_b,
        λ h. cc (given_a, h),
        global ∙ sym given_a,
      )
    where
      unfold_knows :
          (t : System) (k : ℕ) (c : Option ℕ)
          → t.pc k ≡ returned c
          → Knows t.mem (t.pc k)
          → (c ≡ some 0) × (t.mem.global ≡ some 0)
      unfold_knows t k c e know = rw e at know

-- Two goroutines that both find no client: the first makes it, and the second finds it under the lock.
pub two_calls :
    (chan_limit : ℕ) (parse_duration : String → Option ℤ) (env : Env) (c : Client)
    → new_client chan_limit parse_duration env ≡ ok c
    → (s : System) × Reach chan_limit parse_duration env s
      × (s.pc 0 ≡ returned (some 0))
      × (s.pc 1 ≡ returned (some 0))
two_calls chan_limit parse_duration env c e = (
  _,
  move 1
      (move 1
        (move 0
          (move 0
            (move 0
              (move 0
                (move 1 (move 0 (move 1 (move 0 begin (r_lock refl)) (r_lock refl)) (miss refl))
                  (miss refl))
                (lock refl refl))
              (first refl))
            (make c e))
          unlock)
        (lock refl refl))
      (late 0 refl),
  refl,
  refl,
)
