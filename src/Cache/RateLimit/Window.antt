-- ===== src/Cache/RateLimit/Window.antt =====
-- How attempts are counted.
use bankos.Prelude.{
  ℕ, suc, zero, ◌+◌, ◌*◌, ◌≤◌, String, ◌≡◌, refl, ap, subst, ◌∙◌, sym, inl, inr, true, none, some,
  List, [], ◌∷◌, ok, err, Option-cases, Result, length, ltb, arith,
}
use bankos.Cache.Laws.{IsRedis, entry_at, while_alive, is_alive}
use bankos.Cache.RateLimit.{is_endless, count_up, expire, increment_attempts}
use bankos.Runtime.Action.{redis_error}
use bankos.Runtime.Packages.{Packages, Keyspace, no_expiry, seconds}
use bankos.Runtime.World.{World}

-- Attempts, one after the other, each of which reads the clock before the given time and throws nothing,
-- and what each of them answers.
pub data Attempts (env : Packages) (key : String) (ttl end : ℕ)
    : List ℕ → World → World → Type 0 where
  no_attempt : {w : World} → Attempts env key ttl end [] w w
  attempt :
      {n : ℕ} {ns : List ℕ} {w w' w'' : World}
      → ltb (env.time w.ticks) end ≡ true
      → increment_attempts env key ttl w ≡ (ok n, w')
      → Attempts env key ttl end ns w' w''
      → Attempts env key ttl end (n ∷ ns) w w''

-- So many numbers, one after the other.
abbrev pub count_from : ℕ → ℕ → List ℕ
count_from first zero = []
count_from first (suc n) = first ∷ count_from (suc first) n

abbrev answered_with : Result ℕ × World → ℕ
answered_with (ok n, w) = n
answered_with (err e, w) = 0

numbered : {n m : ℕ} {ns ms : List ℕ} → n ≡ m → ns ≡ ms → n ∷ ns ≡ m ∷ ms
numbered same rest = cc

module _ (env : Packages) (laws : IsRedis env.redis)
    (monotone : (m n : ℕ) → m ≤ n → env.time m ≤ env.time n) where
  -- From a time on, the key counts so many attempts and ends at the given time.
  abbrev pub Counts : String → (count end from : ℕ) → Keyspace → Type 0
  Counts key count end from keys =
      (t : ℕ)
      → from ≤ t
      → entry_at t key keys
        ≡ while_alive t (record { value = laws.numeral count; expires_at = some end })

  alive_entry :
      (t end : ℕ) (value : String)
      → ltb t end ≡ true
      → while_alive t (record { value = value; expires_at = some end })
        ≡ some (record { value = value; expires_at = some end })
  unfolding while_alive is_alive
  alive_entry t end value early = rw early refl

  module _ (key : String) (ttl : ℕ) where
    refused_lem :
        (w : World)
        → env.redis.multi_incr_ttl (env.time w.ticks) key w.keys ≡ none
        → increment_attempts env key ttl w ≡ (err redis_error, record w { ticks = w.ticks + 1 })
    unfolding increment_attempts count_up
    refused_lem w refused = rw refused refl

    counted_lem :
        (w : World) (m left : ℕ) (keys : Keyspace)
        → env.redis.multi_incr_ttl (env.time w.ticks) key w.keys ≡ some ((m, seconds left), keys)
        → increment_attempts env key ttl w ≡ (ok m, record w { keys = keys; ticks = w.ticks + 1 })
    unfolding increment_attempts count_up is_endless
    counted_lem w m left keys counted = rw counted refl

    opened_lem :
        (w : World) (m : ℕ) (keys keys' : Keyspace)
        → env.redis.multi_incr_ttl (env.time w.ticks) key w.keys ≡ some ((m, no_expiry), keys)
        → env.redis.expire (env.time (w.ticks + 1)) key ttl keys ≡ some keys'
        → increment_attempts env key ttl w
          ≡ (ok m, record w { keys = keys'; ticks = w.ticks + 1 + 1 })
    unfolding increment_attempts count_up is_endless expire
    opened_lem w m keys keys' counted ended = rw (counted, ended) refl

    endless_lem :
        (w : World) (m : ℕ) (keys : Keyspace)
        → env.redis.multi_incr_ttl (env.time w.ticks) key w.keys ≡ some ((m, no_expiry), keys)
        → env.redis.expire (env.time (w.ticks + 1)) key ttl keys ≡ none
        → increment_attempts env key ttl w
          ≡ (err redis_error, record w { keys = keys; ticks = w.ticks + 1 + 1 })
    unfolding increment_attempts count_up is_endless expire
    endless_lem w m keys counted refused = rw (counted, refused) refl

    -- An attempt within the window counts one more and leaves the end of the window where it is.
    next_attempt :
        (count end n : ℕ) (w w' : World)
        → Counts key count end (env.time w.ticks) w.keys
        → ltb (env.time w.ticks) end ≡ true
        → increment_attempts env key ttl w ≡ (ok n, w')
        → (n ≡ suc count)
          × (w'.ticks ≡ w.ticks + 1)
          × Counts key (suc count) end (env.time w.ticks) w'.keys
    next_attempt count end n w w' counts early answered =
        elim (Option-cases (env.redis.multi_incr_ttl (env.time w.ticks) key w.keys)) [
          | inl refused ↦ let differ = sym (refused_lem w refused) ∙ answered in cc
          | inr (((m, r), keys), counted) ↦
              let t = env.time w.ticks in
              let held = counts t (omega arith) ∙ alive_entry t end (laws.numeral count) early in
              let (more, (left, r_is), _) =
                laws.incr_known t t m count end key r w.keys keys counted held (omega arith) in
              let counted' : env.redis.multi_incr_ttl t key w.keys
                  ≡ some ((m, seconds left), keys) =
                counted ∙ ap (λ x. some ((m, x), keys)) r_is in
              let same = sym (counted_lem w m left keys counted') ∙ answered in
              (
                sym (ap answered_with same) ∙ more,
                sym (ap (λ x. x.1.ticks) same),
                λ t' later.
                    ap (λ x. entry_at t' key x.1.keys) (sym same)
                    ∙ (laws.incr_known t t' m count end key r w.keys keys counted held later).2,
              )
        ]

    -- The end of the window that an attempt opens.
    abbrev pub window_end : World → ℕ
    window_end w = env.time (w.ticks + 1) + ttl * 1000

    -- An attempt where there is none counts 1 and opens a window.
    first_attempt :
        (n : ℕ) (w w' : World)
        → entry_at (env.time w.ticks) key w.keys ≡ none
        → increment_attempts env key ttl w ≡ (ok n, w')
        → (n ≡ 1)
          × (w'.ticks ≡ w.ticks + 1 + 1)
          × Counts key 1 (window_end w) (env.time (w.ticks + 1)) w'.keys
    first_attempt n w w' absent answered =
        elim (Option-cases (env.redis.multi_incr_ttl (env.time w.ticks) key w.keys)) [
          | inl refused ↦ let differ = sym (refused_lem w refused) ∙ answered in cc
          | inr (((m, r), keys), counted) ↦
              let t = env.time w.ticks in
              let now = env.time (w.ticks + 1) in
              let (one, r_is, held) = laws.incr_new t now m key r w.keys keys counted absent in
              let counted' : env.redis.multi_incr_ttl t key w.keys ≡ some ((m, no_expiry), keys) =
                counted ∙ ap (λ x. some ((m, x), keys)) r_is in
              elim (Option-cases (env.redis.expire now key ttl keys)) [
                | inl refused ↦
                    let differ = sym (endless_lem w m keys counted' refused) ∙ answered in cc
                | inr (keys', ended) ↦
                    let same = sym (opened_lem w m keys keys' counted' ended) ∙ answered in
                    (
                      sym (ap answered_with same) ∙ one,
                      sym (ap (λ x. x.1.ticks) same),
                      λ t' later.
                          ap (λ x. entry_at t' key x.1.keys) (sym same)
                          ∙ laws.expire_lem now t' ttl key _ keys keys' ended held later,
                    )
              ]
        ]

    Counts-later :
        (count end from later : ℕ) (keys : Keyspace)
        → from ≤ later
        → Counts key count end from keys
        → Counts key count end later keys
    Counts-later count end from later keys after counts t reached =
        counts t (omega (arith, after, reached))

    recount :
        (count count' end from : ℕ) (keys : Keyspace)
        → count ≡ count'
        → Counts key count end from keys
        → Counts key count' end from keys
    recount count count' end from keys same counts =
        subst (λ c. Counts key c end from keys) same counts

    next-Attempts :
        (count end : ℕ) (ns : List ℕ) (w w' : World)
        → Counts key count end (env.time w.ticks) w.keys
        → Attempts env key ttl end ns w w'
        → (ns ≡ count_from (suc count) (length ns))
          × Counts key (count + length ns) end (env.time w'.ticks) w'.keys
    next-Attempts count end [] w w' counts no_attempt =
        (refl, recount count (count + 0) end (env.time w.ticks) w.keys (omega arith) counts)
    next-Attempts count end (n ∷ ns) w w'' counts (attempt {w' = w'} early answered rest) =
        let (counted, ticked, counts') = next_attempt count end n w w' counts early answered in
        let after : env.time w.ticks ≤ env.time w'.ticks =
          monotone w.ticks w'.ticks (omega (arith, ticked)) in
        let (numbers, counts'') =
          next-Attempts (suc count) end ns w' w''
            (Counts-later (suc count) end (env.time w.ticks) (env.time w'.ticks) w'.keys after
              counts')
            rest in
        (
          numbered counted numbers,
          recount (suc count + length ns) (count + suc (length ns)) end (env.time w''.ticks)
              w''.keys (omega arith) counts'',
        )

    -- Where the server follows its laws and the clock does not run backwards: after an attempt on a key that
    -- the server has no entry for, which answers 1, any further attempts that begin before a lifetime has
    -- passed since the key got its end, and that do not throw, answer 2, 3 and so on. The entry ends
    -- when that lifetime is over, however many attempts there are: no attempt moves the end of
    -- the window.
    pub Attempts-count :
        (n : ℕ) (ns : List ℕ) (w w' w'' : World)
        → entry_at (env.time w.ticks) key w.keys ≡ none
        → increment_attempts env key ttl w ≡ (ok n, w')
        → Attempts env key ttl (window_end w) ns w' w''
        → (n ∷ ns ≡ count_from 1 (length (n ∷ ns)))
          × Counts key (length (n ∷ ns)) (window_end w) (env.time w''.ticks) w''.keys
    Attempts-count n ns w w' w'' absent answered run =
        let (one, ticked, counts) = first_attempt n w w' absent answered in
        let after : env.time (w.ticks + 1) ≤ env.time w'.ticks =
          monotone (w.ticks + 1) w'.ticks (omega (arith, ticked)) in
        let (numbers, counts') =
          next-Attempts 1 (window_end w) ns w' w''
            (Counts-later 1 (window_end w) (env.time (w.ticks + 1)) (env.time w'.ticks) w'.keys
              after counts)
            run in
        (
          numbered one numbers,
          recount (1 + length ns) (suc (length ns)) (window_end w) (env.time w''.ticks) w''.keys
              (omega arith) counts',
        )
