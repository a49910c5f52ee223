-- ===== src/Annotations/Store/Reach.antt =====
-- Every history of the annotation store: submissions, patches, deletions, screenshots and restarts
-- of the service worker in any order, each with reads and writes that succeed or fail.
use open_webbridge.Base.{ℕ, ◌≡◌, refl, Text, Bool, Option, none, [], arith}
use open_webbridge.Annotations.Record.{Float, RawInput, Filter}
use open_webbridge.Annotations.Store.{
  Store, Changes, load, load_unread, add, patch, remove, set_shot,
}
use open_webbridge.Annotations.Store.Invariant.{IsValid, IsDurable}
use open_webbridge.Annotations.Store.Kept.{
  add-IsDurable, patch-IsDurable, remove-IsDurable, set_shot-IsDurable,
}

-- A profile in which nothing was ever stored.
abbrev pub fresh : {F : Type 0} → Store F
fresh = record {
  seq = 0;
  items = [];
  shots = [];
  revision = 0;
  saved_items = none;
  saved_shots = none;
}

module _ {F : Type 0} (float : Float F) (strip_hash : Text → Option Text) where
  pub data Step (s : Store F) : Store F → Type 0 where
    added :
        (input : RawInput F) (tab_id : Option ℕ) (session stamp : Text) (written : Bool)
        → Step s (add float strip_hash input tab_id session stamp written s).1
    patched :
        (f : Filter) (changes : Changes) (stamp : Text) (written : Bool)
        → Step s (patch f changes stamp written s).1
    removed :
        (f : Filter) (written shots_written shots_retried : Bool)
        → Step s (remove f written shots_written shots_retried s).1
    shot :
        (id data_url : Text) (shots_written shots_retried written : Bool)
        → Step s (set_shot id data_url shots_written shots_retried written s).1
    restarted : Step s (load s)
    restarted_unread : Step s (load_unread s)

  pub data Reach : Store F → Type 0 where
    start : Reach fresh
    next : {s t : Store F} → Reach s → Step s t → Reach t

  load-IsDurable : (s : Store F) → IsDurable s → IsDurable (load s)
  unfolding load
  load-IsDurable s d = (d.1, d.1)

  -- A store without records and images, whatever is saved.
  empty-IsValid : (s : Store F) → s.items ≡ [] → s.shots ≡ [] → IsValid s
  empty-IsValid s bare imageless = record {
    ascending = rw bare tt;
    named = rw bare tt;
    capped = rw bare (omega arith);
    distinct = rw imageless tt;
    shots_capped = rw imageless (omega arith);
  }

  fresh-IsDurable : IsDurable (fresh {F = F})
  unfolding load
  fresh-IsDurable = (empty-IsValid fresh refl refl, empty-IsValid (load fresh) refl refl)

  load_unread-IsDurable : (s : Store F) → IsDurable s → IsDurable (load_unread s)
  unfolding load load_unread
  load_unread-IsDurable s d = (empty-IsValid (load_unread s) refl refl, d.1)

  Step-IsDurable : {s t : Store F} → Step s t → IsDurable s → IsDurable t
  Step-IsDurable {s} (added input tab_id session stamp written) d =
      add-IsDurable float strip_hash input tab_id session stamp written s d
  Step-IsDurable {s} (patched f changes stamp written) d =
      patch-IsDurable f changes stamp written s d
  Step-IsDurable {s} (removed f written shots_written shots_retried) d =
      remove-IsDurable f written shots_written shots_retried s d
  Step-IsDurable {s} (shot id data_url shots_written shots_retried written) d =
      set_shot-IsDurable id data_url shots_written shots_retried written s d
  Step-IsDurable {s} restarted d = load-IsDurable s d
  Step-IsDurable {s} restarted_unread d = load_unread-IsDurable s d

  -- After any history the store is valid: at most 500 records, in creation order, each under its
  -- own number and the name made of it, none numbered above the counter, and at most 30
  -- screenshots, each under a key of its own. What a restart would load is valid too.
  pub Reach-IsDurable : {s : Store F} → Reach s → IsValid s × IsValid (load s)
  Reach-IsDurable start = fresh-IsDurable
  Reach-IsDurable (next r st) = Step-IsDurable st (Reach-IsDurable r)
