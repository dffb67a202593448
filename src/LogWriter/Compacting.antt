-- ===== src/LogWriter/Compacting.antt =====
-- `Compact` on a log without deadlines: what it collects, and what it writes.
use radish.Shared.{
  All, >>=-eq-ok, Bool, false, Option, some, none, List, [], ◌∷◌, ◌≡◌, refl, ap, ◌∙◌, sym, arith,
  Bytes, map, bytes_eq, minus_one, Result, ok, ◌>>=◌,
}
use mathlib.Core.Option
use radish.Dict.{Dict, lookup, insert, erase}
use radish.Dict.Order.{insert-erase}
use radish.Store
use radish.Store.{RadishStore, Timestamp, limited, new_store, is_expired}
use radish.Store.Valid.{IsValid}
use radish.Event.{EventType, create, rename, delete, clear, other, RadishEvent, create_event}
use radish.Event.RoundTrip.{canonical, event_of}
use radish.CompactStrategy.{EventsMap, execute, move_entry}
use radish.LogWriter.{apply_event, apply_events, collect}
use radish.LogWriter.Replaying.{apply_event-keeps}
use radish.LogWriter.Entries.{entries_of, lookup-entries_of, insert-entries_of, erase-entries_of}

-- A rename between two names, or another event.
abbrev pub Proper : EventType → Option Bytes → Option Bytes → Type 0
Proper rename (some k) (some r) = bytes_eq k r ≡ false
Proper _ k r = Unit

module _ {ℓ} {V : Type ℓ} where
  -- Events without deadlines, as a database without a time to live commits them.
  pub record IsPlain (event : RadishEvent V) : Type ℓ where
    pub no_deadline : event.m_timestamp ≡ minus_one
    pub proper : Proper event.m_type event.m_key event.m_rename_key

  same_data :
      {t s' : RadishStore V} {x y : Bool}
      → ◌≡◌ {A = Result (RadishStore V × Bool)} (ok (t, x)) (ok (s', y))
      → ok (entries_of t.m_data) ≡ ok (entries_of s'.m_data)
  same_data {t} {s'} h =
      ap (λ (u : RadishStore V). ok (entries_of u.m_data)) (let e : t ≡ s' = cc in e)

  create-data :
      (now : Timestamp) (s : RadishStore V) (k : Bytes) (v : V) (t : Option Timestamp)
      → (Store.create now s k v t).0.m_data ≡ insert k v s.m_data
  unfolding Store.create
  create-data now s k v t = ground arith

  rename_entry :
      (now : Timestamp) (s : RadishStore V) (k r : Bytes) (event : RadishEvent V) (o : Option V)
      → limited s.m_ttl ≡ false
      → bytes_eq k r ≡ false
      → event.m_rename_key ≡ some r
      → lookup k s.m_data ≡ o
      → move_entry k (Option.map (create_event minus_one k) o) (entries_of s.m_data) event
        ≡ ok (entries_of (Store.rename now s k r).0.m_data)
  unfolding move_entry Store.rename is_expired
  rename_entry now s k r event none off ne e found = rw (found, Store.rename)
  rename_entry now s k r event (some v) off ne e found =
      rw (e, found, Store.rename, off)
        (ap (λ m. ok (insert r (create_event minus_one r v) m)) (erase-entries_of k s.m_data)
          ∙ ap ok (insert-entries_of r v (erase k s.m_data))
          ∙ ap (λ m. ok (entries_of m)) (insert-erase k r v s.m_data ne))

  cleared :
      (ttl : Timestamp) (m : Dict V) (ttl_data : Dict Timestamp)
      → let s : RadishStore V = record { m_ttl = ttl; m_data = m; m_ttl_data = ttl_data } in
        ok [] ≡ ok (entries_of (Store.clear s).0.m_data)
  unfolding Store.clear
  cleared ttl [] ttl_data = refl
  cleared ttl (x ∷ m) ttl_data = refl

  clear-data : (s : RadishStore V) → ok [] ≡ ok (entries_of (Store.clear s).0.m_data)
  clear-data s = cleared s.m_ttl s.m_data s.m_ttl_data

  -- One step of the collection keeps pace with the store.
  step_case :
      (type : EventType) (k r : Option Bytes) (p : Option V) (now : Timestamp) (s : RadishStore V)
      {s' : RadishStore V} {applied : Bool}
      → limited s.m_ttl ≡ false
      → Proper type k r
      → apply_event now s (event_of type minus_one k r p) ≡ ok (s', applied)
      → execute type (entries_of s.m_data) (canonical (event_of type minus_one k r p))
        ≡ ok (entries_of s'.m_data)
  unfolding apply_event execute
  step_case create none r p now s off proper h = absurd (cc)
  step_case create (some k) r none now s off proper h = absurd (cc)
  step_case create (some k) r (some p) now s off proper h =
      ap ok (insert-entries_of k p s.m_data)
      ∙ ap (λ m. ok (entries_of m)) (sym (create-data now s k p (some minus_one)))
      ∙ same_data h
  step_case rename none r p now s off proper h = absurd (cc)
  step_case rename (some k) none p now s off proper h = absurd (cc)
  step_case rename (some k) (some r) p now s off proper h =
      rw (lookup-entries_of k s.m_data) (
        rename_entry now s k r (canonical (event_of rename minus_one (some k) (some r) p))
          (lookup k s.m_data) off proper refl refl)
      ∙ same_data h
  step_case delete none r p now s off proper h = absurd (cc)
  step_case delete (some k) r p now s off proper h =
      ap ok (erase-entries_of k s.m_data) ∙ unfold Store.delete in same_data h
  step_case clear k r p now s off proper h = clear-data s ∙ same_data h
  step_case (other n) k r p now s off proper h = absurd (cc)

  collect_case :
      (type : EventType) (k r : Option Bytes) (p : Option V) (now : Timestamp) (m : EventsMap V)
      (rest : List (RadishEvent V))
      → collect now m (canonical (event_of type minus_one k r p) ∷ rest)
        ≡ (do m' ← execute type m (canonical (event_of type minus_one k r p)); collect now m' rest)
  unfolding collect
  collect_case create k r p now m rest = refl
  collect_case rename k r p now m rest = refl
  collect_case delete k r p now m rest = refl
  collect_case clear k r p now m rest = refl
  collect_case (other n) k r p now m rest = refl

  abbrev bare : RadishEvent V → RadishEvent V
  bare e = event_of e.m_type minus_one e.m_key e.m_rename_key e.m_payload

  bare-eq : (e : RadishEvent V) → IsPlain e → bare e ≡ e
  bare-eq e plain i = record {
    m_type = e.m_type;
    m_timestamp = sym plain.no_deadline i;
    m_key = e.m_key;
    m_rename_key = e.m_rename_key;
    m_payload = e.m_payload;
  }

  -- Where plain events lead from a valid store without a time to live to another, collecting
  -- them, as they are read back, on top of the entries of the first gives the entries of the
  -- second.
  pub collect-plain :
      (now later : Timestamp) (s s' : RadishStore V) (events : List (RadishEvent V))
      → limited s.m_ttl ≡ false
      → IsValid s
      → All IsPlain events
      → apply_events now s events ≡ ok s'
      → collect later (entries_of s.m_data) (map canonical events) ≡ ok (entries_of s'.m_data)
  unfolding apply_events
  collect-plain now later s s' [] off v plain h =
      unfold collect in
      ap (λ (u : RadishStore V). ok (entries_of u.m_data)) (let e : s ≡ s' = cc in e)
  collect-plain now later s s' (e ∷ events) off v plain h =
      let (r, applied, rest) = >>=-eq-ok (apply_event now s e) _ h in
      let (valid, ttl) = apply_event-keeps now s e v applied in
      let p = bare-eq e plain.0 in
      ap (λ x. collect later (entries_of s.m_data) (canonical x ∷ map canonical events)) (sym p)
      ∙ collect_case e.m_type e.m_key e.m_rename_key e.m_payload later (entries_of s.m_data)
          (map canonical events)
      ∙ ap (λ x. x >>= λ m. collect later m (map canonical events))
          (step_case e.m_type e.m_key e.m_rename_key e.m_payload now s off plain.0.proper
            (ap (apply_event now s) p ∙ applied))
      ∙ collect-plain now later r.0 s' events (rw ttl off) valid plain.1 rest
