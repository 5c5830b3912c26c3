-- ===== src/Comm/Wire.antt =====
-- The messages of `exportLearnedClauses` and `handleReceivedClauses`: one array of `int`, with the
-- length of what follows at index 0, and a 0 behind the literals of each clause.
pub mod Layout
pub mod Roundtrip
use dpainless.Prelude.{
  ℕ, zero, suc, ◌+◌, ◌-◌, ◌*◌, ◌≡◌, List, [], ◌∷◌, ◌++◌, Option, none, some, ℤ, pos, negsuc, Bool,
  true, false, length, get_elem?, set, ltb, leb, if◌then◌else◌,
}
use dpainless.Clauses.Exchange.{ClauseExchange, M, pure, fault, ◌>>=◌, ◌>>◌, alloc_clause}
use dpainless.Clauses.Filter.{ClauseFilter, register_clause}
use dpainless.Clauses.Buffer.{BufferApi}

-- An array and the next index.
abbrev pub Cursor : Type 0
Cursor = List ℤ × ℕ

-- `exportBuf[idx++] = x`; `none` is a write out of bounds.
unfoldable pub put : ℤ → Cursor → Option Cursor
put x (buf, idx) = if ltb idx (length buf) then some (set buf idx x, idx + 1) else none

-- The inner loop, over the literals of a clause.
unfoldable pub put_lits : List ℤ → Cursor → Option Cursor
unfolding put
put_lits [] cur = some cur
put_lits (l ∷ ls) cur = elim (put l cur) [ none ↦ none | some cur' ↦ put_lits ls cur' ]

unfoldable pub put_clauses : List ClauseExchange → Cursor → Option Cursor
unfolding put_lits
put_clauses [] cur = some cur
put_clauses (c ∷ cs) cur = elim (put_lits c.lits cur) [
  | none ↦ none
  | some cur' ↦ elim (put (pos 0) cur') [ none ↦ none | some cur'' ↦ put_clauses cs cur'' ]
]

-- `exportBuf[0] = idx` and the assertion, which is checked behind the writes.
unfoldable pub seal : Cursor → Option (List ℤ)
seal (buf, idx) = if ltb (idx - 1) (length buf) then some (set buf 0 (pos (idx - 1))) else none

-- The part of `exportLearnedClauses` that fills the buffer.
unfoldable pub fill : List ClauseExchange → List ℤ → Option (List ℤ)
unfolding put_clauses seal
fill cs buf = elim (put_clauses cs (buf, 1)) [ none ↦ none | some cur ↦ seal cur ]

abbrev pub is_zero : ℤ → Bool
is_zero (pos zero) = true
is_zero (pos (suc n)) = false
is_zero (negsuc n) = false

module _ {B : Type 0} (api : BufferApi B) where
  -- The filter of the clauses that come in or go out, and the buffer of those that came in.
  pub record Inbox : Type 0 where
    pub external_filter : ClauseFilter
    pub clauses_to_import : B

  -- A clause that the filter lets in: a copy with one reference. Its `lbd` is not written.
  unfoldable pub import_clause : List ℤ → Inbox → M Inbox
  import_clause tmp box = do
    cls ← alloc_clause none (negsuc 0) (length tmp) tmp
    pure (record box { clauses_to_import = api.add_clause box.clauses_to_import cls })

  -- The branch for a 0: the literals in `tmp` are a clause.
  unfoldable pub finish_clause : List ℤ → Inbox → M Inbox
  unfolding import_clause
  finish_clause tmp box =
      let (fresh, filter) = register_clause box.external_filter tmp in
      if fresh
      then import_clause tmp (record box { external_filter = filter })
      else pure (record box { external_filter = filter })

  -- The loop over `i`, with the rounds that are left.
  unfoldable pub receive_from : ℕ → ℕ → List ℤ → List ℤ → Inbox → M Inbox
  unfolding finish_clause
  receive_from zero i buf tmp box = pure box
  receive_from (suc rounds) i buf tmp box = elim (get_elem? buf i) [
    | none ↦ fault
    | some x ↦ elim (is_zero x) [
      | true ↦ (finish_clause tmp box >>= receive_from rounds (i + 1) buf [])
      | false ↦ receive_from rounds (i + 1) buf (tmp ++ x ∷ []) box
    ]
  ]

  -- A negative length makes no round. The assertion is a fault.
  unfoldable pub handle_received_clauses : List ℤ → ℕ → Inbox → M Inbox
  unfolding receive_from
  handle_received_clauses buf size box = elim (get_elem? buf 0) [
    | none ↦ fault
    | some (pos n) ↦ if ltb n size then receive_from n 1 buf [] box else fault
    | some (negsuc n) ↦ pure box
  ]
