-- ===== src/Bench/Workload/Requests.antt =====
-- Which commands each workload sends.
use radish.Shared.{
  if-elim, ℕ, ◌+◌, ◌-◌, ◌*◌, ◌^◌, ◌<◌, ◌≤◌, Bool, true, false, ◌||◌, List, [], ◌∷◌, ◌≡◌, ◌⊎◌, inl,
  inr, refl, sym, subst, arith, Bytes, codes, bytes_eq, bytes_eq_iff, leb, Result, ok, err,
  unsupported_workload,
}
use radish.Bench.Options.{BenchOptions}
use radish.Bench.Keys.{make_key, make_value}
use radish.Bench.Workload.{
  Random, IsUniform, wrap, is_mixed, write_percent, set_or_get, get_miss, command_of, build_command,
}

-- A command that the workload may send as number `sequence`. Keys below the key count are the
-- preloaded ones.
pub data Requests (options : BenchOptions) (sequence : ℕ) : List Bytes → Type 0 where
  pings : options.workload ≡ codes "PING" → Requests options sequence (codes "PING" ∷ [])
  sets :
      (index : ℕ)
      → index < options.key_count
      → (options.workload ≡ codes "SET") ⊎ (is_mixed options.workload ≡ true)
      → Requests options sequence
          (codes "SET" ∷ make_key index options.key_size ∷ make_value options.value_size ∷ [])
  gets :
      (index : ℕ)
      → index < options.key_count
      → (options.workload ≡ codes "GET_HIT") ⊎ (is_mixed options.workload ≡ true)
      → Requests options sequence (codes "GET" ∷ make_key index options.key_size ∷ [])
  misses :
      (index : ℕ)
      → options.key_count ≤ index
      → index < 2 * options.key_count
      → options.workload ≡ codes "GET_MISS"
      → Requests options sequence (codes "GET" ∷ make_key index options.key_size ∷ [])
  deletes :
      (index : ℕ)
      → index < options.key_count
      → options.workload ≡ codes "DEL"
      → Requests options sequence (codes "DEL" ∷ make_key index options.key_size ∷ [])
  tests :
      (index : ℕ)
      → index < options.key_count
      → options.workload ≡ codes "EXISTS"
      → Requests options sequence (codes "EXISTS" ∷ make_key index options.key_size ∷ [])
  sizes : options.workload ≡ codes "DBSIZE" → Requests options sequence (codes "DBSIZE" ∷ [])
  lists :
      options.workload ≡ codes "KEYS" → Requests options sequence (codes "KEYS" ∷ codes "*" ∷ [])
  renames :
      (index : ℕ)
      → index < options.key_count
      → options.workload ≡ codes "RENAME"
      → Requests options sequence (
          codes "RENAME"
          ∷ make_key index options.key_size
          ∷ make_key (options.key_count * 2 + sequence) options.key_size
          ∷ [])

same : (s t : Bytes) → bytes_eq s t ≡ true → s ≡ t
same s t = (bytes_eq_iff s t).0

wrap_small : (n : ℕ) → n < 2 ^ 64 → wrap n ≡ n
wrap_small n h = omega arith

abbrev pub is_workload : Bytes → Bool
is_workload w =
    bytes_eq w (codes "PING")
    || bytes_eq w (codes "SET")
    || bytes_eq w (codes "GET_HIT")
    || bytes_eq w (codes "GET_MISS")
    || bytes_eq w (codes "DEL")
    || bytes_eq w (codes "EXISTS")
    || bytes_eq w (codes "DBSIZE")
    || bytes_eq w (codes "KEYS")
    || bytes_eq w (codes "RENAME")
    || is_mixed w

module _ {ℓ} {G : Type ℓ} (random : Random G) (options : BenchOptions) (sequence : ℕ)
    (u : IsUniform random) (some_key : 1 ≤ options.key_count)
    (small : options.key_count * 2 + sequence < 2 ^ 64) where
  -- A request of the workload, or the exception for a workload that has none.
  abbrev pub Outcome : Result (List Bytes × G) → Type 0
  Outcome (err e) = (e ≡ unsupported_workload) × (is_workload options.workload ≡ false)
  Outcome (ok (command, g)) = Requests options sequence command

  set_or_get-Outcome :
      (index : ℕ) (r : ℕ × G)
      → index < options.key_count
      → is_mixed options.workload ≡ true
      → Outcome (ok (set_or_get random options (make_key index options.key_size) r))
  unfolding set_or_get
  set_or_get-Outcome index (percent, g) h mixed =
      if-elim (λ r. Outcome (ok r)) (leb percent (write_percent options.workload))
        (λ e. sets index h (inr mixed)) (λ e. gets index h (inr mixed))

  command_of-Outcome :
      (index last : ℕ) (g : G)
      → index < options.key_count
      → last ≡ options.key_count - 1
      → Outcome (command_of random options sequence last (make_key index options.key_size) g)
  unfolding command_of get_miss
  command_of-Outcome index last g h e =
      let w = options.workload in
      if-elim Outcome (bytes_eq w (codes "PING")) (λ k. pings (same w (codes "PING") k))
        λ not_ping.
          if-elim Outcome (bytes_eq w (codes "SET"))
            (λ k. sets index h (inl (same w (codes "SET") k)))
            λ not_set.
              if-elim Outcome (bytes_eq w (codes "GET_HIT"))
                (λ k. gets index h (inl (same w (codes "GET_HIT") k)))
                λ not_hit.
                  if-elim Outcome (bytes_eq w (codes "GET_MISS"))
                    (λ k.
                      missed (random.draw 0 last g) (u.at_most 0 last g (omega arith))
                        (same w (codes "GET_MISS") k))
                    λ not_miss.
                      if-elim Outcome (bytes_eq w (codes "DEL"))
                        (λ k. deletes index h (same w (codes "DEL") k))
                        λ not_delete.
                          if-elim Outcome (bytes_eq w (codes "EXISTS"))
                            (λ k. tests index h (same w (codes "EXISTS") k))
                            λ not_exists.
                              if-elim Outcome (bytes_eq w (codes "DBSIZE"))
                                (λ k. sizes (same w (codes "DBSIZE") k))
                                λ not_size.
                                  if-elim Outcome (bytes_eq w (codes "KEYS"))
                                    (λ k. lists (same w (codes "KEYS") k))
                                    λ not_keys.
                                      if-elim Outcome (bytes_eq w (codes "RENAME"))
                                        (λ k. renamed (same w (codes "RENAME") k))
                                        λ not_rename.
                                          if-elim Outcome (is_mixed w)
                                            (λ k.
                                              set_or_get-Outcome index (random.draw 1 100 g) h k)
                                            λ not_mixed. (
                                              refl,
                                              rw
                                                  (
                                                    not_ping, not_set, not_hit, not_miss,
                                                    not_delete, not_exists, not_size, not_keys,
                                                    not_rename, not_mixed,
                                                  )
                                                  refl,
                                            )
    where
      missed :
          (r : ℕ × G)
          → r.0 ≤ last
          → options.workload ≡ codes "GET_MISS"
          → Outcome (ok (get_miss random options r))
      missed (i, g') b k =
          subst (λ n. Requests options sequence (codes "GET" ∷ make_key n options.key_size ∷ []))
            (sym (wrap_small (options.key_count + i) (omega arith)))
            (misses (options.key_count + i) (omega arith) (omega arith) k)

      renamed :
          options.workload ≡ codes "RENAME"
          → Requests options sequence (
              codes "RENAME"
              ∷ make_key index options.key_size
              ∷ make_key (wrap (options.key_count * 2 + sequence)) options.key_size
              ∷ [])
      renamed k =
          subst
            (λ n.
              Requests options sequence (
                codes "RENAME"
                ∷ make_key index options.key_size
                ∷ make_key n options.key_size
                ∷ []))
            (sym (wrap_small (options.key_count * 2 + sequence) small)) (renames index h k)

  -- A command is built, or the workload is not known.
  pub build_command-Outcome : (g : G) → Outcome (build_command random options sequence g)
  unfolding build_command
  build_command-Outcome g =
      let last = wrap (options.key_count + (2 ^ 64 - 1)) in
      let drawn = random.draw 0 last g in
      let e = wrap_last options.key_count (omega arith) in
      let b = u.at_most 0 last g (omega arith) in
      command_of-Outcome drawn.0 last drawn.1 (omega (arith, e)) e
    where
      wrap_last : (n : ℕ) → (1 ≤ n) × (n < 2 ^ 64) → wrap (n + (2 ^ 64 - 1)) ≡ n - 1
      wrap_last n h = omega arith
