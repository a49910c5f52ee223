-- ===== src/Cdp/Quiet.antt =====
-- What the debugger sessions are while nothing is detached during a call.
use open_webbridge.Base.{
  ◌≡◌, ◌⊎◌, In, refl, inl, inr, Text, lit, text_keys, contains, contains-add, contains-delete, add,
  lookup, lookup-insert, lookup-erase, beq_refl, is_some, true, or_else, List, [], ◌∷◌, ◌++◌,
  Result, ok, err, Bool-cases, arith, if◌then◌else◌,
}
use open_webbridge.Cdp.{
  Target, target_keys, target_eq_iff, Cdp, AttachAnswer, attached_now, already_attached, refused,
  attach_call, cleanup, on_detach, raw_send, enable_of, is_enabled, ensure_entry, mark,
  enable_domain, is_tab, attach, and_then, ensure_domain, Call, command,
}
use open_webbridge.Cdp.Announced.{ensure_domain-IsAnnounced}

-- Domains are marked as enabled only for targets to which the debugger is attached.
abbrev pub IsConsistent : Cdp → Type 0
IsConsistent s = (t : Target) → is_some (lookup t s.enabled) ≡ true → contains t s.attached ≡ true

cleanup-IsConsistent : (t : Target) (s : Cdp) → IsConsistent s → IsConsistent (cleanup t s)
unfolding cleanup
cleanup-IsConsistent t s h u =
    rw (lookup-erase t u s.enabled, contains-delete t u s.attached) (ground (arith, h u))

-- A detach from outside leaves no mark of the target, and keeps the marks consistent.
pub on_detach-IsConsistent :
    (ts : List Target) (s : Cdp) → IsConsistent s → IsConsistent (on_detach ts s)
unfolding on_detach
on_detach-IsConsistent [] s h = h
on_detach-IsConsistent (t ∷ ts) s h =
    on_detach-IsConsistent ts (cleanup t s) (cleanup-IsConsistent t s h)

mark-IsConsistent :
    (t : Target) (domain : Text) (s : Cdp) → IsConsistent s → IsConsistent (mark t domain s)
unfolding mark
mark-IsConsistent t domain s h u = elim (Bool-cases (is_some (lookup t s.enabled))) [
  | inr e ↦ rw e (h u)
  | inl e ↦
      rw (e, lookup-insert t u (add domain (or_else (lookup t s.enabled) [])) s.enabled)
        (ground (arith, h u, h t, target_eq_iff t u))
]

enable_domain-IsConsistent :
    (during : List Target) (t : Target) (domain : Text) (s : Cdp)
    → contains t s.attached ≡ true
    → IsConsistent s
    → IsConsistent (enable_domain during t domain s)
unfolding enable_domain
enable_domain-IsConsistent during t domain s here h =
    elim (Bool-cases (is_enabled t domain (ensure_entry t s))) [
      | inl e ↦ rw e entered
      | inr e ↦ rw e (mark-IsConsistent t domain _ (on_detach-IsConsistent during _ entered))
    ]
  where
    entered : IsConsistent (ensure_entry t s)
    entered u =
        rw (lookup-insert t u (or_else (lookup t s.enabled) []) s.enabled)
          (ground (arith, h u, target_eq_iff t u))

-- The state after the debugger has answered, before and after the domain of pages is enabled.
abbrev held : Target → Cdp → Cdp
held t s = record s { sent = s.sent ++ attach_call t ∷ []; attached = add t s.attached }

held-IsConsistent : (t : Target) (s : Cdp) → IsConsistent s → IsConsistent (held t s)
held-IsConsistent t s h u e = rw (contains-add t u s.attached) (ground (arith, h u))

contains-held : (t : Target) (s : Cdp) → contains t (held t s).attached ≡ true
contains-held t s = rw (contains-add t t s.attached, beq_refl t)

opened-IsConsistent :
    (during : List Target) (t : Target) (s : Cdp)
    → IsConsistent s
    → IsConsistent (if is_tab t then enable_domain during t (lit "Page") (held t s) else held t s)
opened-IsConsistent during t s h = elim (Bool-cases (is_tab t)) [
  | inl e ↦ rw e (
      enable_domain-IsConsistent during t (lit "Page") (held t s) (contains-held t s)
        (held-IsConsistent t s h))
  | inr e ↦ rw e (held-IsConsistent t s h)
]

-- An attach keeps the marks consistent, whatever it answers and whatever is detached meanwhile.
pub attach-IsConsistent :
    (answer : AttachAnswer) (during : List Target) (t : Target) (s : Cdp)
    → IsConsistent s
    → IsConsistent (attach answer during t s).1
unfolding attach
attach-IsConsistent answer during t s h = elim (Bool-cases (contains t s.attached)) [
  | inl e ↦ rw e h
  | inr e ↦ rw e (fresh answer)
]
  where
    fresh :
        (a : AttachAnswer)
        → IsConsistent
            (elim a as (λ _. Result Text (Unit {0}) × Cdp) [
              | attached_now ↦ (
                ok tt,
                if is_tab t then enable_domain during t (lit "Page") (held t s) else held t s,
              )
              | already_attached ↦ (
                ok tt,
                if is_tab t then enable_domain during t (lit "Page") (held t s) else held t s,
              )
              | refused why ↦ (err why, record s { sent = s.sent ++ attach_call t ∷ [] })
            ]).1
    fresh attached_now = opened-IsConsistent during t s h
    fresh already_attached = opened-IsConsistent during t s h
    fresh (refused why) = h

attached-enable_domain :
    (t : Target) (domain : Text) (s : Cdp) → (enable_domain [] t domain s).attached ≡ s.attached
unfolding enable_domain
attached-enable_domain t domain s = ground arith

is_enabled-mark :
    (t : Target) (domain : Text) (s : Cdp)
    → is_some (lookup t s.enabled) ≡ true
    → is_enabled t domain (mark t domain s) ≡ true
unfolding mark is_enabled
is_enabled-mark t domain s h =
    let domains = or_else (lookup t s.enabled) [] in
    rw (
      h,
      lookup-insert t t (add domain domains) s.enabled,
      beq_refl t,
      contains-add domain domain domains,
      beq_refl domain,
    )

entry_there :
    (t : Target) (method : Text) (s : Cdp)
    → is_some (lookup t (raw_send t method (ensure_entry t s)).enabled) ≡ true
unfolding raw_send ensure_entry
entry_there t method s =
    rw (lookup-insert t t (or_else (lookup t s.enabled) []) s.enabled, beq_refl t)

is_enabled-enable_domain :
    (t : Target) (domain : Text) (s : Cdp)
    → is_enabled t domain (enable_domain [] t domain s) ≡ true
unfolding enable_domain
is_enabled-enable_domain t domain s = elim (Bool-cases (is_enabled t domain (ensure_entry t s))) [
  | inl e ↦ rw e e
  | inr e ↦ rw e (
      is_enabled-mark t domain (raw_send t (enable_of domain) (ensure_entry t s))
        (entry_there t (enable_of domain) s))
]

contains-attach :
    (answer : AttachAnswer) (t : Target) (s : Cdp)
    → (attach answer [] t s).0 ≡ ok tt
    → contains t (attach answer [] t s).1.attached ≡ true
unfolding attach
contains-attach answer t s h = elim (Bool-cases (contains t s.attached)) [
  | inl e ↦ rw e e
  | inr e ↦ rw e (fresh answer (rw e at h))
]
  where
    opened : Cdp
    opened = if is_tab t then enable_domain [] t (lit "Page") (held t s) else held t s

    result : AttachAnswer → Result Text (Unit {0}) × Cdp
    result a = elim a [
      | attached_now ↦ (ok tt, opened)
      | already_attached ↦ (ok tt, opened)
      | refused why ↦ (err why, record s { sent = s.sent ++ attach_call t ∷ [] })
    ]

    on : contains t opened.attached ≡ true
    on = elim (Bool-cases (is_tab t)) [
      | inl e ↦ rw (e, attached-enable_domain t (lit "Page") (held t s)) (contains-held t s)
      | inr e ↦ rw e (contains-held t s)
    ]

    fresh : (a : AttachAnswer) → (result a).0 ≡ ok tt → contains t (result a).1.attached ≡ true
    fresh attached_now k = on
    fresh already_attached k = on
    fresh (refused why) k = cc

-- What ensuring a domain does once the attach has answered.
after_attach :
    (t : Target) (domain : Text) (r : Result Text (Unit {0}) × Cdp)
    → IsConsistent r.1
    → (r.0 ≡ ok tt → contains t r.1.attached ≡ true)
    → (and_then r (enable_domain [] t domain)).0 ≡ ok tt
    → IsConsistent (and_then r (enable_domain [] t domain)).1
      × (contains t (and_then r (enable_domain [] t domain)).1.attached ≡ true)
      × (is_enabled t domain (and_then r (enable_domain [] t domain)).1 ≡ true)
after_attach t domain (err e, s) h on done = cc
after_attach t domain (ok u, s) h on done = (
  enable_domain-IsConsistent [] t domain s (on refl) h,
  rw (attached-enable_domain t domain s) (on refl),
  is_enabled-enable_domain t domain s,
)

-- While nothing is detached, if ensuring a domain returns, the marks are as consistent as they were,
-- the debugger is attached to the target and the domain is marked for it, and if it was not marked
-- before, the command that enables it for the target was sent during the call.
pub ensure_domain_quiet :
    (answer : AttachAnswer) (t : Target) (domain : Text) (s : Cdp)
    → IsConsistent s
    → (ensure_domain answer [] [] t domain s).0 ≡ ok tt
    → IsConsistent (ensure_domain answer [] [] t domain s).1
      × (contains t (ensure_domain answer [] [] t domain s).1.attached ≡ true)
      × (is_enabled t domain (ensure_domain answer [] [] t domain s).1 ≡ true)
      × (calls : List Call) × ((ensure_domain answer [] [] t domain s).1.sent ≡ s.sent ++ calls)
      × ((is_enabled t domain s ≡ true) ⊎ In (command t (enable_of domain)) calls)
unfolding ensure_domain
ensure_domain_quiet answer t domain s h done =
    let (consistent, held, on) =
      after_attach t domain (attach answer [] t s) (attach-IsConsistent answer [] t s h)
        (contains-attach answer t s) done in
    let (calls, sent, told) = ensure_domain-IsAnnounced t domain answer s in
    (consistent, held, on, calls, sent, elim told [ inr k ↦ k | inl off ↦ cc ])
