-- ===== src/Cdp.antt =====
-- open-webbridge-extension/src/cdp.js: the debugger sessions of tabs and frames.
--
-- `chrome.debugger` is outside: what a call of it answers is an argument, and so are the targets
-- that are detached from outside while a call is waited for. `sent` lists the calls that are made.
pub mod Announced
pub mod Quiet
pub mod Race
mod Examples
use open_webbridge.Base.{
  ℕ, Text, text_keys, text_eq, text_eq_iff, contains, add, delete, lookup, insert, erase, is_some,
  Table, Eq, ==_iff, ◌==◌, ◌≡◌, ◌↔◌, refl, Bool, true, false, not, Option, none, some, or_else,
  List, [], ◌∷◌, ◌++◌, Result, ok, err, if◌then◌else◌, lit, arith,
}

-- `{tabId}` or `{targetId}`.
pub data Target : Type 0 where
  tab : ℕ → Target
  target : Text → Target

unfoldable pub target_eq : Target → Target → Bool
target_eq (tab m) (tab n) = m == n
target_eq (tab m) (target t) = false
target_eq (target s) (tab n) = false
target_eq (target s) (target t) = text_eq s t

target_eq→eq : (a b : Target) → target_eq a b ≡ true → a ≡ b
unfolding target_eq
target_eq→eq (tab m) (tab n) h = ground arith
target_eq→eq (tab m) (target t) h = ground arith
target_eq→eq (target s) (tab n) h = ground arith
target_eq→eq (target s) (target t) h = ground (arith, text_eq_iff s t)

pub target_eq_refl : (a : Target) → target_eq a a ≡ true
unfolding target_eq
target_eq_refl (tab m) = ground arith
target_eq_refl (target s) = ground (arith, text_eq_iff s s)

pub target_eq_iff : (a b : Target) → (target_eq a b ≡ true) ↔ (a ≡ b)
target_eq_iff a b = (target_eq→eq a b, λ e. rw e (target_eq_refl b))

instance abbrev pub target_keys : Eq Target
target_keys = record { beq = target_eq; beq_iff = target_eq_iff }

-- The calls of `chrome.debugger`.
pub data Call : Type 0 where
  attach_call detach_call : Target → Call
  command : Target → Text → Call

-- `attached`, `enabledDomains`, and the calls made so far, the last one last.
pub record Cdp : Type 0 where
  pub attached : List Target
  pub enabled : Table Target (List Text)
  pub sent : List Call

-- What `chrome.debugger.attach` answers.
pub data AttachAnswer : Type 0 where
  attached_now already_attached : AttachAnswer
  refused : Text → AttachAnswer

unfoldable pub cleanup : Target → Cdp → Cdp
cleanup t s = record s { attached = delete t s.attached; enabled = erase t s.enabled }

-- The targets that are detached from outside, one after the other.
unfoldable pub on_detach : List Target → Cdp → Cdp
unfolding cleanup
on_detach [] s = s
on_detach (t ∷ rest) s = on_detach rest (cleanup t s)

unfoldable pub raw_send : Target → Text → Cdp → Cdp
raw_send t method s = record s { sent = s.sent ++ command t method ∷ [] }

abbrev pub enable_of : Text → Text
enable_of domain = domain ++ lit ".enable"

-- `set.has(domain)`
unfoldable pub is_enabled : Target → Text → Cdp → Bool
is_enabled t domain s = contains domain (or_else (lookup t s.enabled) [])

-- The entry of a target is made before its domain is enabled.
unfoldable pub ensure_entry : Target → Cdp → Cdp
ensure_entry t s = record s { enabled = insert t (or_else (lookup t s.enabled) []) s.enabled }

-- `set.add(domain)` on the set that was found before the wait. If the entry was deleted in the
-- meantime, that set is in no table any more.
unfoldable pub mark : Target → Text → Cdp → Cdp
mark t domain s =
    if is_some (lookup t s.enabled)
    then record s { enabled = insert t (add domain (or_else (lookup t s.enabled) [])) s.enabled }
    else s

-- The end of `attach` and of `ensureDomain`: the domain is enabled unless it is marked, and its
-- answer, an error too, is not looked at. `during` is detached while it is waited for.
unfoldable pub enable_domain : List Target → Target → Text → Cdp → Cdp
unfolding ensure_entry raw_send on_detach mark is_enabled
enable_domain during t domain s =
    let e = ensure_entry t s in
    if is_enabled t domain e
    then e
    else mark t domain (on_detach during (raw_send t (enable_of domain) e))

unfoldable pub is_tab : Target → Bool
is_tab (tab _) = true
is_tab (target _) = false

unfoldable pub attach : AttachAnswer → List Target → Target → Cdp → Result Text (Unit {0}) × Cdp
attach answer during t s =
    let called : Cdp = record s { sent = s.sent ++ attach_call t ∷ [] } in
    let held : Cdp = record called { attached = add t s.attached } in
    let done = if is_tab t then enable_domain during t (lit "Page") held else held in
    if contains t s.attached then (ok tt, s) else elim answer [
      | attached_now ↦ (ok tt, done)
      | already_attached ↦ (ok tt, done)
      | refused why ↦ (err why, called)
    ]

-- `and_then r f` goes on after an awaited call that did not throw.
abbrev pub and_then : Result Text (Unit {0}) × Cdp → (Cdp → Cdp) → Result Text (Unit {0}) × Cdp
and_then (ok u, s) f = (ok u, f s)
and_then (err e, s) f = (err e, s)

unfoldable pub ensure_domain :
    AttachAnswer → List Target → List Target → Target → Text → Cdp → Result Text (Unit {0}) × Cdp
ensure_domain answer in_attach in_enable t domain s =
    and_then (attach answer in_attach t s) (enable_domain in_enable t domain)

unfoldable pub send :
    AttachAnswer → List Target → Target → Text → Cdp → Result Text (Unit {0}) × Cdp
send answer during t method s = and_then (attach answer during t s) (raw_send t method)

unfoldable pub detach : Target → Cdp → Cdp
detach t s =
    if contains t s.attached
    then cleanup t (record s { sent = s.sent ++ detach_call t ∷ [] })
    else cleanup t s
