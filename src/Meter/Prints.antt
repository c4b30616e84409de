-- ===== src/Meter/Prints.antt =====
-- What the rounds print, and the reports among it.
use net_lock.Common.{
  ◌≡◌, ◌∙◌, refl, sym, ap, List, [], ◌∷◌, ◌++◌, ltb, append-nil, append_assoc, branches, ◌&&◌,
}
use net_lock.Meter.{
  Plan, Meter, Reading, Rates, Print, rx_pers, average, Outcome, goes_on, completed,
  divides_by_zero, finish, after, then_go_on,
}

-- The reports among what is printed.
abbrev pub reports : List Print → List (List Rates × Rates)
reports [] = []
reports (rx_pers n ∷ out) = reports out
reports (average cores total ∷ out) = (cores, total) ∷ reports out

pub reports-append : (a b : List Print) → reports (a ++ b) ≡ reports a ++ reports b
reports-append [] b = refl
reports-append (rx_pers n ∷ a) b = reports-append a b
reports-append (average cores total ∷ a) b = ap (λ rs. (cores, total) ∷ rs) (reports-append a b)

abbrev pub printed : Outcome → List Print
printed (goes_on m out) = out
printed (completed out) = out
printed divides_by_zero = []

pub printed-finish :
    (plan : Plan) (r : Reading) (m : Meter) (out : List Print) → printed (finish plan r m out) ≡ out
printed-finish plan r m out =
    branches (λ (o : Outcome). printed o ≡ out)
      (ltb 0 plan.average_end_tsc && ltb plan.exit_tsc r.cur_tsc && m.stop_statis) refl refl

pub after-after : (a b : List Print) (o : Outcome) → after a (after b o) ≡ after (a ++ b) o
after-after a b (goes_on m out) = ap (goes_on m) (sym (append_assoc a b out))
after-after a b (completed out) = ap completed (sym (append_assoc a b out))
after-after a b divides_by_zero = refl

pub after-nil : (o : Outcome) → after [] o ≡ o
after-nil (goes_on m out) = refl
after-nil (completed out) = refl
after-nil divides_by_zero = refl

-- Nothing comes after the last round.
pub printed-then :
    (o : Outcome) → reports (printed (then_go_on o (λ m. goes_on m []))) ≡ reports (printed o)
printed-then (goes_on m out) = ap reports (append-nil out)
printed-then (completed out) = refl
printed-then divides_by_zero = refl

pub printed-after :
    (a : List Print) (o : Outcome)
    → reports a ≡ []
    → reports (printed (after a o)) ≡ reports (printed o)
printed-after a (goes_on m out) e = reports-append a out ∙ ap (λ rs. rs ++ reports out) e
printed-after a (completed out) e = reports-append a out ∙ ap (λ rs. rs ++ reports out) e
printed-after a divides_by_zero e = refl
