-- ===== src/Ovn/Lowlevel/Transactions.antt =====
-- What a transaction that returns has checked.
use cluster_controller.Prelude.{
  String, ◌≡◌, ◌⊎◌, inl, inr, refl, sym, ap, Bool, true, Option, none, some, List, [], ◌∷◌, find,
  lookup, All,
}
use cluster_controller.Errors.{
  Outcome, ok, err, panic, Error, ok_or, or_default, expect, assert, is_ok, collect, ovn_not_found,
  ovn_conflict, ovn_deserialization_failed,
}
use cluster_controller.Errors
use cluster_controller.World.Monad.Inversion.{
  bind-eq-ok, lift-eq-ok, assert-eq-ok, expect-eq-ok, ok-injective,
}
use cluster_controller.Json.{Value, null, num, str, as_array, as_object, is_null, to_list-of_list}
use mathlib.Core.Path.{subst}
use cluster_controller.World.{
  continue, Ovn, by_position, Message, request, response, Event, Env, World, lift,
}
use cluster_controller.Ovn.Jsonrpc.Matching.{answers, after_request, send_request_lem}
use cluster_controller.Ovn.Lowlevel.{transact, check_results, check_response}

-- An object whose error, if it has one, is null.
abbrev pub IsClean : Value → Type 0
IsClean v =
    (fields : List (String × Value)) × (as_object v ≡ some fields)
    × ((lookup "error" fields ≡ none) ⊎ (lookup "error" fields ≡ some null))

abbrev error_test : Option Value → Bool
error_test e = elim e [ none ↦ true | some v ↦ is_null v ]

is_null-eq : (v : Value) → is_null v ≡ true → v ≡ null
is_null-eq null h = refl
is_null-eq v h = cc

error_test_cases : (e : Option Value) → error_test e ≡ true → (e ≡ none) ⊎ (e ≡ some null)
error_test_cases none h = inl refl
error_test_cases (some v) h = inr (ap some (is_null-eq v h))

check_results-IsClean : (results : List Value) → check_results results ≡ ok tt → All IsClean results
unfolding check_results
check_results-IsClean [] h = tt
check_results-IsClean (r ∷ rest) h =
    let (fields, e, h') = bind-eq-ok (expect (as_object r)) _ h in
    let (u, e', h'') = bind-eq-ok (assert (error_test (lookup "error" fields))) _ h' in
    (
      (fields, expect-eq-ok _ e, error_test_cases _ (assert-eq-ok _ e')),
      check_results-IsClean rest h'',
    )

continue-lift :
    {A B : Type 0} (m : Outcome A) (f : A → Outcome B) (env : Env) (w : World)
    → continue (m, w) (λ a. lift (f a)) env ≡ (Errors.◌>>=◌ m f, w)
continue-lift (ok a) f env w = refl
continue-lift (err e) f env w = refl
continue-lift panic f env w = refl

-- The world after a transaction, and what it returns.
abbrev pub after_transact : Ovn → List Value → World → World
after_transact o operations w =
    after_request o "transact" (by_position (str "OVN_Northbound" ∷ operations)) w

abbrev pub transact_outcome : Ovn → List Value → Env → World → Outcome (List Value)
transact_outcome o operations env w =
    Errors.◌>>=◌
      (expect (
        find (answers (w.ids o.connection)) (env.net.messages (after_transact o operations w).log)))
      check_response

-- A transaction sends its operations in one request and returns the results of the first message
-- that answers the request, checked; it does nothing else.
pub transact_lem :
    (o : Ovn) (operations : List Value) (env : Env) (w : World)
    → transact o operations env w
      ≡ (transact_outcome o operations env w, after_transact o operations w)
unfolding transact
transact_lem o operations env w = rw (to_list-of_list operations) (
    rw (send_request_lem o "transact" (by_position (str "OVN_Northbound" ∷ operations)) env w)
      (continue-lift _ check_response env _))

check_response-IsClean :
    (m : Message) (results : List Value) → check_response m ≡ ok results → All IsClean results
check_response-IsClean (request id method params) results h = cc
check_response-IsClean (response id result error) results h =
    let (u, e, h') = bind-eq-ok (assert (is_null error)) _ h in
    let (rs, e', h'') = bind-eq-ok (expect (as_array result)) _ h' in
    let (v, e'', h''') = bind-eq-ok (check_results rs) _ h'' in
    subst (All IsClean) (ok-injective h''') (check_results-IsClean rs e'')

-- A transaction that returns has sent exactly one message, with the operations behind the
-- database's name, and every result is an object without an error: an operation that the database
-- refused is never taken for done.
pub transact-IsClean :
    (o : Ovn) (operations : List Value) (env : Env) (w : World) {results : List Value} {w' : World}
    → transact o operations env w ≡ (ok results, w')
    → (w'.log
        ≡ Event.send o (
            request
              (num (w.ids o.connection))
              "transact"
              (by_position (str "OVN_Northbound" ∷ operations)))
          ∷ w.log)
      × All IsClean results
transact-IsClean o operations env w h =
    let (p, same) = lift-eq-ok (rw (transact_lem o operations env w) at h) in
    let (m, e, h') = bind-eq-ok (expect _) check_response p in
    (ap (λ (u : World). u.log) (sym same), check_response-IsClean m _ h')
