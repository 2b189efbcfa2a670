-- ===== src/Model/Candidate/Kinds.antt =====
-- internal/model/candidate.go: the strings of the kinds and of the verdicts.
use pgfathom.Base.{◌≡◌, ◌↔◌, true, arith, text_eq, str_eq_refl}
use pgfathom.Model.Candidate.{SignalKind, Verdict, kind_name, kind_eq, verdict_eq}

pub kind_eq_iff : (k l : SignalKind) → (kind_eq k l ≡ true) ↔ (k ≡ l)
kind_eq_iff k l = (sound k l, λ e. rw e (same l))
  where
    sound : (k l : SignalKind) → kind_eq k l ≡ true → k ≡ l
    sound k l h = unfold kind_eq in ground arith

    same : (k : SignalKind) → kind_eq k k ≡ true
    same k = unfold kind_eq in str_eq_refl (kind_name k)

pub verdict_eq_iff : (v w : Verdict) → (verdict_eq v w ≡ true) ↔ (v ≡ w)
unfolding verdict_eq
verdict_eq_iff v w = ground arith
