-- ===== src/Query/Chain.antt =====
-- `Core_init_t::execute` of include/vermell/routes.hpp: the middlewares that run, in order.
use vermell.Params.{ℤ, pos, negsuc}
use vermell.Http.Message.{Message}
use vermell.Request.{consume, new_request}
use vermell.Query.{
  is_positive, new_query, Query, lock_in, run_chain, execute, finish, start, Executed,
}
use vermell.Prelude.{
  ℕ, zero, suc, ◌≡◌, refl, sym, ap, ◌∙◌, subst, ◌≢◌, ◌↔◌, inl, inr, true, false, Option, none, some,
  List, [], ◌∷◌, ◌++◌, arith, if◌then◌else◌, Bool-cases, if-true, if-false, Bytes,
}

finished-msg :
    (key : ℤ) (msg : Bytes)
    → ((n : ℕ) → key ≡ pos (suc n) → (if is_positive key then some msg else none) ≡ some msg)
      × (((n : ℕ) → key ≢ pos (suc n)) → (if is_positive key then some msg else none) ≡ none)
finished-msg (pos zero) msg = ((λ n e. absurd (cc e)), (λ _. refl))
finished-msg (pos (suc m)) msg = ((λ n e. ground arith), (λ ne. absurd (ne m refl)))
finished-msg (negsuc m) msg = ((λ n e. absurd (cc e)), (λ _. refl))

leaves-msg :
    (key : ℤ) (msg : Bytes) (got : Option Bytes)
    → ((n : ℕ) → key ≡ pos (suc n) → got ≡ some msg)
    → (((n : ℕ) → key ≢ pos (suc n)) → got ≡ none)
    → (if is_positive key then some msg else none) ≡ got
leaves-msg (pos zero) msg got on off = sym (off (λ n e. cc))
leaves-msg (pos (suc m)) msg got on off =
    (finished-msg (pos (suc m)) msg).0 m refl ∙ sym (on m refl)
leaves-msg (negsuc m) msg got on off = sym (off (λ n e. cc))

module _ {ℓ} {W : Type ℓ} where
  -- One middleware after the other, each on the state with its `next` flag cleared.
  unfoldable pub run_all : List (Query × W → Query × W) → Query × W → Query × W
  run_all [] s = s
  run_all (f ∷ fs) (q, w) = run_all fs (f (record q { next_enable = false }, w))

  -- The middlewares that run are the first ones: after each of them but the last the flag is set, and
  -- where others are left the last one leaves it cleared. Together they take `s` to `s'`.
  pub record IsRun (functions : List (Query × W → Query × W)) (s s' : Query × W) : Type ℓ where
    pub ran : List (Query × W → Query × W)
    pub rest : List (Query × W → Query × W)
    pub all_of : functions ≡ ran ++ rest
    pub state : s' ≡ run_all ran s
    pub goes_on :
        (before after : List (Query × W → Query × W))
        → ran ≡ before ++ after
        → before ≢ []
        → after ≢ []
        → (run_all before s).0.next_enable ≡ true
    pub stops : rest ≢ [] → (ran ≢ []) × (s'.0.next_enable ≡ false)

  -- What `execute` returns of the state that the middlewares leave.
  pub record Leaves (s : Query × W) (result : Executed × W) : Type ℓ where
    pub response : result.0.response ≡ s.0.last
    pub time_key : result.0.time_key ≡ s.0.time_key
    pub guarded : (n : ℕ) → s.0.time_key ≡ pos (suc n) → result.0.guard_msg ≡ some s.0.guard_msg
    pub unguarded : ((n : ℕ) → s.0.time_key ≢ pos (suc n)) → result.0.guard_msg ≡ none
    pub others : result.1 ≡ s.1

  nothing_before :
      (before after : List (Query × W → Query × W)) → [] ≡ before ++ after → ¬ (before ≢ [])
  nothing_before [] after e ne = ne refl
  nothing_before (f ∷ before) after e ne = absurd (cc e)

  goes_on-cons :
      (f : Query × W → Query × W) (ran : List (Query × W → Query × W)) (s : Query × W)
      → (f (lock_in s)).0.next_enable ≡ true
      → ((before after : List (Query × W → Query × W))
          → ran ≡ before ++ after
          → before ≢ []
          → after ≢ []
          → (run_all before (f (lock_in s))).0.next_enable ≡ true)
      → (before after : List (Query × W → Query × W)) → f ∷ ran ≡ before ++ after
      → before ≢ []
      → after ≢ []
      → (run_all before s).0.next_enable ≡ true
  unfolding run_all
  goes_on-cons f ran s on more [] after e ne ne' = absurd (ne refl)
  goes_on-cons f ran s on more (g ∷ []) after e ne ne' =
      let same_f : f ≡ g = cc in subst (λ h. (h (lock_in s)).0.next_enable ≡ true) same_f on
  goes_on-cons f ran s on more (g ∷ h ∷ before) after e ne ne' =
      let same_f : f ≡ g = cc in
      let behind : ran ≡ (h ∷ before) ++ after = cc in
      subst (λ x. (run_all (h ∷ before) (x (lock_in s))).0.next_enable ≡ true) same_f
        (more (h ∷ before) after behind (λ e'. cc) ne')

  only_one :
      (f : Query × W → Query × W) (s : Query × W) (before after : List (Query × W → Query × W))
      → f ∷ [] ≡ before ++ after
      → before ≢ []
      → after ≢ []
      → (run_all before s).0.next_enable ≡ true
  only_one f s [] after e ne ne' = absurd (ne refl)
  only_one f s (g ∷ []) [] e ne ne' = absurd (ne' refl)
  only_one f s (g ∷ []) (h ∷ after) e ne ne' = absurd (cc e)
  only_one f s (g ∷ h ∷ before) after e ne ne' = absurd (cc e)

  run_chain-IsRun :
      (functions : List (Query × W → Query × W)) (s : Query × W)
      → IsRun functions s (run_chain functions s)
  unfolding run_chain run_all
  run_chain-IsRun [] s = record {
    ran = [];
    rest = [];
    all_of = refl;
    state = refl;
    goes_on = λ before after e ne _. absurd (nothing_before before after e ne);
    stops = λ ne. absurd (ne refl);
  }
  run_chain-IsRun (f ∷ fs) s = elim (Bool-cases ((f (lock_in s)).0.next_enable)) [
    | inl on ↦
        let k = run_chain-IsRun fs (f (lock_in s)) in
        subst (IsRun (f ∷ fs) s) (sym (if-true _ _ _ on)) (record {
          ran = f ∷ k.ran;
          rest = k.rest;
          all_of = ap (◌∷◌ f) k.all_of;
          state = k.state;
          goes_on = goes_on-cons f k.ran s on k.goes_on;
          stops = λ ne. ((λ e. cc), (k.stops ne).1);
        })
    | inr off ↦ subst (IsRun (f ∷ fs) s) (sym (if-false _ _ _ off)) (record {
      ran = f ∷ [];
      rest = fs;
      all_of = refl;
      state = refl;
      goes_on = only_one f s;
      stops = λ ne. ((λ e. cc), off);
    })
  ]

  run_all-run_chain :
      (ran rest : List (Query × W → Query × W)) (s : Query × W)
      → ((before after : List (Query × W → Query × W))
          → ran ≡ before ++ after
          → before ≢ []
          → after ≢ []
          → (run_all before s).0.next_enable ≡ true)
      → (rest ≢ [] → (ran ≢ []) × ((run_all ran s).0.next_enable ≡ false))
      → run_chain (ran ++ rest) s ≡ run_all ran s
  unfolding run_chain run_all
  run_all-run_chain [] [] s goes_on stops = refl
  run_all-run_chain [] (f ∷ fs) s goes_on stops = absurd ((stops (λ e. cc)).0 refl)
  run_all-run_chain (f ∷ []) [] s goes_on stops =
      elim (Bool-cases ((f (lock_in s)).0.next_enable)) [
        | inl on ↦ if-true _ _ _ on
        | inr off ↦ if-false _ _ _ off
      ]
  run_all-run_chain (f ∷ []) (g ∷ fs) s goes_on stops = if-false _ _ _ (stops (λ e. cc)).1
  run_all-run_chain (f ∷ g ∷ ran) rest s goes_on stops =
      if-true _ _ _ (goes_on (f ∷ []) (g ∷ ran) refl (λ e. cc) (λ e. cc))
      ∙ run_all-run_chain (g ∷ ran) rest (f (lock_in s))
          (λ before after e ne ne'. goes_on (f ∷ before) after (ap (◌∷◌ f) e) (λ e'. cc) ne')
          (λ ne. ((λ e. cc), (stops ne).1))

  finish-Leaves : (s : Query × W) → Leaves s (finish s.0, s.1)
  finish-Leaves (q, w) = record {
    response = refl;
    time_key = refl;
    guarded = (finished-msg q.time_key q.guard_msg).0;
    unguarded = (finished-msg q.time_key q.guard_msg).1;
    others = refl;
  }

  Leaves-finish :
      (s : Query × W) (result : Executed × W) → Leaves s result → (finish s.0, s.1) ≡ result
  Leaves-finish (q, w) (done, w') k =
      let msg = leaves-msg q.time_key q.guard_msg done.guard_msg k.guarded k.unguarded in
      cc (msg, k.response, k.time_key, k.others)

  -- `execute` returns a result exactly when it is what the middlewares that run leave: they start with
  -- a new query that has the captures of the route and the message, the `next` flag is cleared before
  -- each, it is set after each but the last, and where others are left the last one has not set it.
  -- The result is the last response, the time key, the guard's message where that key is positive,
  -- and the state of the rest of the program.
  pub execute_iff :
      (functions : List (Query × W → Query × W)) (message : Message)
      (route_params : List (Bytes × Bytes)) (w : W) (result : Executed × W)
      → (execute functions message route_params w ≡ result) ↔ (
          (s : Query × W) × IsRun functions
            (
              record new_query { route_params = route_params; body = consume message new_request },
              w,
            )
            s
          × Leaves s result)
  unfolding execute
  execute_iff functions message route_params w result = (to, from)
    where
      to :
          execute functions message route_params w ≡ result
          → (s : Query × W) × IsRun functions (start message route_params, w) s × Leaves s result
      to e =
          let s = run_chain functions (start message route_params, w) in
          (
            s,
            run_chain-IsRun functions (start message route_params, w),
            subst (Leaves s) e (finish-Leaves s),
          )

      from :
          ((s : Query × W) × IsRun functions (start message route_params, w) s × Leaves s result)
          → execute functions message route_params w ≡ result
      from (s, k, leaves) =
          let first : Query × W = (start message route_params, w) in
          let ran : run_chain (k.ran ++ k.rest) first ≡ run_all k.ran first =
            run_all-run_chain k.ran k.rest first k.goes_on
              (λ ne. ((k.stops ne).0, ap (λ x. x.0.next_enable) (sym k.state) ∙ (k.stops ne).1)) in
          let same_s : run_chain functions first ≡ s =
            ap (λ fs. run_chain fs first) k.all_of ∙ (ran ∙ sym k.state) in
          ap (λ x. (finish x.0, x.1)) same_s ∙ Leaves-finish s result leaves
