-- ===== src/Scheduler/Batches/Cleared.antt =====
-- What evictions make of the paged cache.
use mathlib.Core.Path.{subst}
use chitu.Base.{
  ◌≡◌, refl, sym, ◌∙◌, false, inl, inr, String, List, [], ◌∷◌, All, Bool-cases, ok, string_eq,
}
use chitu.Cache.Paged.{Paged, finalize_cache_all_decode}
use chitu.Cache.Paged.Conserved.{Same, Outcome, finalize-Keeps}
use chitu.Cache.Paged.Release.{WellKept, IsGone, IsKept, Released}
use chitu.Scheduler.State.{Entry}

abbrev pub req_of : Entry → String
req_of e = (e.1).req.request_id

-- What the evictions have made of a well-kept cache: the requests of the evicted tasks are gone, all
-- others are kept.
pub record Cleared (dropped : List Entry) (c d : Paged) : Type 0 where
  pub well : WellKept d
  pub gone : All (λ e. IsGone d (req_of e)) dropped
  pub stays : (q : String) → IsGone c q → IsGone d q
  pub others : (q : String) → All (λ e. string_eq.beq (req_of e) q ≡ false) dropped → IsKept c d q

pub nothing-Cleared : (c : Paged) → WellKept c → Cleared [] c c
nothing-Cleared c w = record { well = w; gone = tt; stays = λ q g. g; others = λ q a. (refl, refl) }

IsGone-Released : (r q : String) (c d : Paged) → Released r c d → IsGone c q → IsGone d q
IsGone-Released r q c d f g = elim (Bool-cases (string_eq.beq r q)) [
  | inl e ↦ rw (sym ((string_eq.beq_iff r q).0 e)) f.gone
  | inr n ↦ ((f.others q n).0 ∙ g.0, (f.others q n).1 ∙ g.1)
]

pub cons-Cleared :
    (e : Entry) (dropped : List Entry) (b c d : Paged)
    → Released (req_of e) b c
    → Cleared dropped c d
    → Cleared (e ∷ dropped) b d
cons-Cleared e dropped b c d f g = record {
  well = g.well;
  gone = (g.stays (req_of e) f.gone, g.gone);
  stays = λ q h. g.stays q (IsGone-Released (req_of e) q b c f h);
  others = λ q a. (let x = f.others q a.0 in let y = g.others q a.1 in (y.0 ∙ x.0, y.1 ∙ x.1));
}

pub evicted-Same :
    (r : String) (c d : Paged) → finalize_cache_all_decode r c ≡ (ok tt, d) → Same c d
evicted-Same r c d h = subst (Outcome c) h ((finalize-Keeps r).at c)
