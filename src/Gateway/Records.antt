-- ===== src/Gateway/Records.antt =====
-- What a request does to the journal: it appends records, numbered one after the other.
use mathlib.Core.List.{map-append}
use instrument_benchmark_eva.Prelude.{
  zero, ℕ, suc, ◌+◌, ◌≡◌, ap, sym, ◌∙◌, List, [], ◌∷◌, ◌++◌, map, length, length-append, arith,
}
use instrument_benchmark_eva.Prelude.Text.{Text}
use instrument_benchmark_eva.Host.{Host}
use instrument_benchmark_eva.Evidence.Journal.{Runtime, Journal, Entry, append, record_of}
use instrument_benchmark_eva.Gateway.Session.{Gateway, JsonObject}
use instrument_benchmark_eva.Gateway.Steps.{Edits, session_operation-R, dispatch-R}
use instrument_benchmark_eva.Gateway.Server.{dispatch}

-- The numbers from `n` on.
abbrev pub numbers_from : ℕ → ℕ → List ℕ
numbers_from n zero = []
numbers_from n (suc k) = n ∷ numbers_from (suc n) k

numbers_from-suc : (n k : ℕ) → numbers_from n (suc k) ≡ numbers_from n k ++ ((n + k) ∷ [])
numbers_from-suc n zero = ap (λ m. m ∷ []) (omega arith)
numbers_from-suc n (suc k) =
    ap (λ l. n ∷ l)
      (numbers_from-suc (suc n) k ∙ ap (λ m. numbers_from (suc n) k ++ (m ∷ [])) (omega arith))

module _ {F : Type 0} ⦃rt : Runtime F⦄ where
  -- The journals that appending entries leads to.
  pub data Grows : Journal F → Journal F → Type 0 where
    same : {j : Journal F} → Grows j j
    grow : {j j' : Journal F} (e : Entry F) → Grows (append e j) j' → Grows j j'

  Grows-trans : {i j k : Journal F} → Grows i j → Grows j k → Grows i k
  Grows-trans same q = q
  Grows-trans (grow e p) q = grow e (Grows-trans p q)

  abbrev pub JournalGrows : Gateway F → Gateway F → Type 0
  JournalGrows g g' = Grows g.journal g'.journal

  Grows-Edits : (sid : Text) → Edits JournalGrows sid
  Grows-Edits sid = record {
    stay = λ g. same;
    chain = λ u v w p q. Grows-trans p q;
    rack_edit = λ g r. same;
    clock_edit = λ g n. same;
    journal_edit = λ g e. grow e same;
    session_edit = λ g s. same;
    session_end = λ g. same;
  }

  -- Whatever is requested, and whether it is refused or not, the journal after is the journal
  -- before with entries appended.
  pub dispatch-Grows :
      ⦃h : Host F⦄
      → (now : ℕ) (token owner operation : Text) (arguments : JsonObject) (g : Gateway F)
      → Grows g.journal (dispatch now token owner operation arguments g).1.journal
  dispatch-Grows now token owner operation arguments =
      dispatch-R JournalGrows token (Grows-Edits token) now owner operation arguments
        (λ sid session g owned.
          (session_operation-R JournalGrows sid (Grows-Edits sid) session _ operation
              arguments).moves
            g)

  -- The records of a journal are numbered from 1 on, in order.
  abbrev pub IsNumbered : Journal F → Type 0
  IsNumbered j = map (λ e. e.sequence) j.events ≡ numbers_from 1 (length j.events)

  append-IsNumbered : (e : Entry F) (j : Journal F) → IsNumbered j → IsNumbered (append e j)
  unfolding append record_of
  append-IsNumbered e j p =
      let count = length j.events in
      let longer : length (j.events ++ (record_of j e ∷ [])) ≡ suc count =
        omega (arith, length-append j.events (record_of j e ∷ [])) in
      let next : count + 1 ≡ 1 + count = omega arith in
      map-append (λ x. x.sequence) j.events (record_of j e ∷ [])
      ∙ ap (λ l. l ++ ((count + 1) ∷ [])) p
      ∙ ap (λ m. numbers_from 1 count ++ (m ∷ [])) next
      ∙ sym (numbers_from-suc 1 count)
      ∙ ap (numbers_from 1) (sym longer)

  Grows-IsNumbered : {j j' : Journal F} → Grows j j' → IsNumbered j → IsNumbered j'
  Grows-IsNumbered same p = p
  Grows-IsNumbered (grow {j = j} e q) p = Grows-IsNumbered q (append-IsNumbered e j p)

  -- A request, refused or not, keeps the records of the journal numbered from 1 on, in order.
  pub dispatch-IsNumbered :
      ⦃h : Host F⦄
      → (now : ℕ) (token owner operation : Text) (arguments : JsonObject) (g : Gateway F)
      → IsNumbered g.journal
      → IsNumbered (dispatch now token owner operation arguments g).1.journal
  dispatch-IsNumbered now token owner operation arguments g p =
      Grows-IsNumbered (dispatch-Grows now token owner operation arguments g) p
