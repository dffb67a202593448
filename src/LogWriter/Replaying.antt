-- ===== src/LogWriter/Replaying.antt =====
-- `ApplyEvent` and `Replay`: events applied in order, with and without a time to live.
use mathlib.Core.Path.{fun_ext}
use radish.Shared.{
  subst, Bool, false, Option, none, some, List, [], ◌∷◌, ◌++◌, ◌≡◌, refl, ap, arith, Bytes, map,
  Result, ok, err, ◌>>=◌,
}
use radish.Store
use radish.Store.{RadishStore, Timestamp, limited, is_expired}
use radish.Store.Valid.{IsValid, create-IsValid, rename-IsValid, delete-IsValid, clear-IsValid}
use radish.Event.{EventType, create, rename, delete, clear, other, RadishEvent}
use radish.Event.RoundTrip.{canonical, event_of}
use radish.LogWriter.{apply_event, apply_events}

module _ {ℓ} {V : Type ℓ} where
  canonical_case :
      (type : EventType) (t : Timestamp) (k r : Option Bytes) (p : Option V) (now : Timestamp)
      (s : RadishStore V)
      → apply_event now s (canonical (event_of type t k r p))
        ≡ apply_event now s (event_of type t k r p)
  unfolding apply_event
  canonical_case create t k r p now s = refl
  canonical_case rename t k r p now s = refl
  canonical_case delete t k r p now s = refl
  canonical_case clear t k r p now s = refl
  canonical_case (other n) t k r p now s = refl

  -- The fields that a type does not write play no part in its application.
  apply_event-canonical :
      (now : Timestamp) (s : RadishStore V) (e : RadishEvent V)
      → apply_event now s (canonical e) ≡ apply_event now s e
  apply_event-canonical now s e =
      canonical_case e.m_type e.m_timestamp e.m_key e.m_rename_key e.m_payload now s

  pub apply_events-canonical :
      (now : Timestamp) (s : RadishStore V) (events : List (RadishEvent V))
      → apply_events now s (map canonical events) ≡ apply_events now s events
  unfolding apply_events
  apply_events-canonical now s [] = refl
  apply_events-canonical now s (event ∷ events) =
      rw (apply_event-canonical now s event) (
        ap (λ f. apply_event now s event >>= f)
          (fun_ext λ r. apply_events-canonical now r.0 events))

  bind_ok :
      (r : Result (RadishStore V × Bool)) (f g h : RadishStore V → Result (RadishStore V))
      → ((s : RadishStore V) → f s ≡ (g s >>= h))
      → (r >>= λ x. f x.0) ≡ ((r >>= λ x. g x.0) >>= h)
  bind_ok (ok (s, applied)) f g h e = e s
  bind_ok (err x) f g h e = refl

  -- One more event in the log is one more `ApplyEvent` after the replay.
  pub apply_events-append :
      (now : Timestamp) (s : RadishStore V) (events : List (RadishEvent V)) (event : RadishEvent V)
      → apply_events now s (events ++ event ∷ [])
        ≡ (do s' ← apply_events now s events; (s'', applied) ← apply_event now s' event; ok s'')
  unfolding apply_events
  apply_events-append now s [] event = refl
  apply_events-append now s (e ∷ events) event =
      bind_ok (apply_event now s e) _ _ _ (λ s₁. apply_events-append now s₁ events event)

  -- What holds of the store that a case returns.
  carry :
      (P : RadishStore V → Type ℓ) {s s' : RadishStore V} {x y : Bool}
      → P s
      → ◌≡◌ {A = Result (RadishStore V × Bool)} (ok (s, x)) (ok (s', y))
      → P s'
  carry P h e = subst P (cc) h

  abbrev Kept : RadishStore V → RadishStore V → Type ℓ
  Kept s s' = IsValid s' × (s'.m_ttl ≡ s.m_ttl)

  -- Every event keeps the invariant and the time to live.
  keeps_case :
      (type : EventType) (t : Timestamp) (k r : Option Bytes) (p : Option V) (now : Timestamp)
      (s : RadishStore V) {s' : RadishStore V} {applied : Bool}
      → IsValid s
      → apply_event now s (event_of type t k r p) ≡ ok (s', applied)
      → Kept s s'
  unfolding apply_event
  keeps_case create t none r p now s v h = absurd (cc)
  keeps_case create t (some k) r none now s v h = absurd (cc)
  keeps_case create t (some k) r (some p) now s v h =
      carry (Kept s) (create-IsValid now s k p (some t) v, unfold Store.create in ground arith) h
  keeps_case rename t none r p now s v h = absurd (cc)
  keeps_case rename t (some k) none p now s v h = absurd (cc)
  keeps_case rename t (some k) (some r) p now s v h =
      carry (Kept s) (rename-IsValid now s k r v, unfold Store.rename in ground arith) h
  keeps_case delete t none r p now s v h = absurd (cc)
  keeps_case delete t (some k) r p now s v h =
      carry (Kept s) (delete-IsValid s k v, unfold Store.delete in refl) h
  keeps_case clear t k r p now s v h =
      carry (Kept s) (clear-IsValid s v, unfold Store.clear in ground arith) h
  keeps_case (other n) t k r p now s v h = absurd (cc)

  -- An event that is applied without an exception to a valid store gives a valid store with
  -- the same time to live.
  pub apply_event-keeps :
      (now : Timestamp) (s : RadishStore V) (e : RadishEvent V) {s' : RadishStore V}
      {applied : Bool}
      → IsValid s
      → apply_event now s e ≡ ok (s', applied)
      → IsValid s' × (s'.m_ttl ≡ s.m_ttl)
  apply_event-keeps now s e =
      keeps_case e.m_type e.m_timestamp e.m_key e.m_rename_key e.m_payload now s

  clock_case :
      (type : EventType) (t : Timestamp) (k r : Option Bytes) (p : Option V) (now later : Timestamp)
      (s : RadishStore V)
      → limited s.m_ttl ≡ false
      → apply_event now s (event_of type t k r p) ≡ apply_event later s (event_of type t k r p)
  unfolding apply_event
  clock_case create t none r p now later s h = refl
  clock_case create t (some k) r none now later s h = refl
  clock_case create t (some k) r (some p) now later s h = unfold Store.create in ground arith
  clock_case rename t none r p now later s h = refl
  clock_case rename t (some k) none p now later s h = refl
  clock_case rename t (some k) (some r) p now later s h =
      unfold Store.rename is_expired in ground arith
  clock_case delete t k r p now later s h = refl
  clock_case clear t k r p now later s h = refl
  clock_case (other n) t k r p now later s h = refl

  -- Without a time to live an event has the same effect at any two times.
  pub apply_event_clock :
      (now later : Timestamp) (s : RadishStore V) (e : RadishEvent V)
      → limited s.m_ttl ≡ false
      → apply_event now s e ≡ apply_event later s e
  apply_event_clock now later s e =
      clock_case e.m_type e.m_timestamp e.m_key e.m_rename_key e.m_payload now later s
