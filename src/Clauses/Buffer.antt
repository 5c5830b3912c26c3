-- ===== src/Clauses/Buffer.antt =====
-- clauses/ClauseBuffer.h: what the other components use of a buffer of clauses, seen from one
-- thread. A buffer is a queue: clauses are added at its end, `getClause` takes the first, and
-- `getClauses` takes all of them.
pub mod Queue
pub mod Chain
pub mod Shared
pub mod Alone
use dpainless.Prelude.{◌≡◌, List, [], ◌∷◌, ◌++◌, Option, none, some}
use dpainless.Clauses.Exchange.{ClauseExchange}

-- What `getClause` returned, and what is left.
abbrev pub taken_then : Option ClauseExchange → List ClauseExchange → List ClauseExchange
taken_then none cs = cs
taken_then (some c) cs = c ∷ cs

pub record BufferApi (B : Type 0) : Type 0 where
  pub empty : B
  pub add_clause : B → ClauseExchange → B
  pub get_clause : B → Option ClauseExchange × B
  pub get_clauses : B → List ClauseExchange × B
  pub contents : B → List ClauseExchange
  pub contents-empty : contents empty ≡ []
  pub contents-add : (b : B) (c : ClauseExchange) → contents (add_clause b c) ≡ contents b ++ c ∷ []
  pub get_first : (b : B) → taken_then (get_clause b).0 (contents (get_clause b).1) ≡ contents b
  pub get_nothing : (b : B) → (get_clause b).0 ≡ none → contents b ≡ []
  pub get-contents : (b : B) → (get_clauses b).0 ≡ contents b
  pub contents-get : (b : B) → contents (get_clauses b).1 ≡ []
