-- ===== src/Solvers/Native.antt =====
-- What solvers/Maple.cpp uses of the solver of MapleCOMSPS, which is not modelled.
use dpainless.Prelude.{ℕ, suc, ◌≡◌, List, Option, ℤ, Bool}

-- What a search does until it returns: it may call one of the callbacks, and go on with what it gets.
pub data Search (T L : Type 0) : Type 0 where
  done : Option Bool → T → Search T L
  export_clause : ℕ → List L → Search T L → Search T L
  import_unit : (L → Search T L) → Search T L
  import_clause : (Option (Option ℕ × List L) → Search T L) → Search T L

-- `T` are the states of a `SimpSolver`, `L` are its literals. A truth value is `none` for `l_Undef`.
pub record SimpSolver (T L : Type 0) : Type 0 where
  pub mk_lit : ℤ → Bool → L
  pub var : L → ℤ
  pub sign : L → Bool
  pub lit_undef : L
  pub var-mk_lit : (v : ℤ) (s : Bool) → var (mk_lit v s) ≡ v
  pub sign-mk_lit : (v : ℤ) (s : Bool) → sign (mk_lit v s) ≡ s
  pub mk_lit-var : (l : L) → mk_lit (var l) (sign l) ≡ l
  pub n_vars : T → ℕ
  pub new_var : T → T
  pub n_vars-new_var : (t : T) → n_vars (new_var t) ≡ suc (n_vars t)
  pub add_clause : List L → T → Bool × T
  pub n_vars-add_clause : (ls : List L) (t : T) → n_vars (add_clause ls t).1 ≡ n_vars t
  pub solve_limited : List L → T → Search T L
  pub interrupt : T → T
  pub clear_interrupt : T → T
  pub set_polarity : ℤ → Bool → T → T
  pub set_ge : Bool → T → T
  pub set_vsids : Bool → T → T
  pub set_verso : Bool → T → T
  pub model : T → List (Option Bool)
  pub conflict : T → List L
  pub get_assumptions : T → List L
