-- ===== src/Cli/Session.antt =====
-- What a session of the interactive mode does to the service.
use aegis_oms_rs.Prelude.{
  ℕ, zero, suc, String, ◌≡◌, ◌≢◌, refl, Option, none, some, List, [], ◌∷◌, ◌++◌, ◌⊎◌, inl, inr,
  Option-cases, sym, ap, subst, ◌∙◌,
}
use Prim.Native.Char.{Char}
use aegis_oms_rs.Platform.{Platform}
use aegis_oms_rs.Platform.Text.{Texts}
use aegis_oms_rs.Domain.Error.{Result, ok, Result-cases, pure, ◌>>=◌}
use aegis_oms_rs.Infra.Repository.{Stores}
use aegis_oms_rs.Service.OrderService.State.{OrderService}
use aegis_oms_rs.Cli.Handlers.{Handler, Line}
use aegis_oms_rs.Cli.Words.{split_whitespace}
use aegis_oms_rs.Cli.Repl.{verb, arm, Turn, repl_loop, run_repl}
use aegis_oms_rs.Cli.Meaning.{
  Request, Meaning, stops, nothing, asks, command, of_words, of_line, perform, session,
}
use aegis_oms_rs.Cli.Follows.{Follows, arm-Follows}

List-cases : {A : Type 0} (xs : List A) → (xs ≡ []) ⊎ ((a : A) × (rest : List A) × (xs ≡ a ∷ rest))
List-cases [] = inl refl
List-cases (a ∷ rest) = inr (a, rest, refl)

module _ ⦃P : Platform⦄ ⦃S : Stores⦄ where
  module _ ⦃T : Texts⦄ where
    -- A handler, and the rest of the session behind it.
    abbrev pub then_loop : Handler → List Turn → Handler
    then_loop handle turns = do lines ← handle; rest ← repl_loop turns; pure (lines ++ rest)

    -- The first lines of a session.
    abbrev take : ℕ → List Turn → List Turn
    take zero turns = []
    take (suc n) [] = []
    take (suc n) (t ∷ turns) = t ∷ take n turns

    -- Every line of the session is carried out, or the session ends without a result, and the lines
    -- up to some line, that one included, are.
    abbrev pub CarriesOut : List Turn → OrderService → Result (List Line) × OrderService → Type 0
    CarriesOut turns s (r, t) =
        (t ≡ session turns s)
        ⊎ (((lines : List Line) → r ≢ ok lines) × (n : ℕ) × (t ≡ session (take (suc n) turns) s))

    -- Another outcome with the same state.
    weaker :
        (turns : List Turn) (s : OrderService) {v : OrderService} {r r' : Result (List Line)}
        → ((lines : List Line) → r' ≢ ok lines)
        → CarriesOut turns s (r, v)
        → CarriesOut turns s (r', v)
    weaker turns s fails (inl w) = inl w
    weaker turns s fails (inr (no_result, n, w)) = inr (fails, n, w)

    whole :
        (turns : List Turn) (s : OrderService) {v : OrderService} {r r' : Result (List Line)}
        (lines : List Line)
        → CarriesOut turns s (r, v)
        → r ≡ ok lines
        → CarriesOut turns s (r', v)
    whole turns s lines (inl w) e = inl w
    whole turns s lines (inr (fails, n, w)) e = absurd (fails lines e)

    longer :
        (t : Turn) (turns : List Turn) (s u v : OrderService) (r r' : Result (List Line))
        → ((ts : List Turn) → session (t ∷ ts) s ≡ session ts u)
        → (((lines : List Line) → r ≢ ok lines) → (lines : List Line) → r' ≢ ok lines)
        → CarriesOut turns u (r, v)
        → CarriesOut (t ∷ turns) s (r', v)
    longer t turns s u v r r' head keep (inl w) = inl (w ∙ sym (head turns))
    longer t turns s u v r r' head keep (inr (fails, n, w)) =
        inr (keep fails, suc n, w ∙ sym (head (take (suc n) turns)))

    then_loop-CarriesOut :
        (h : Handler) (t : Turn) (turns : List Turn) (s : OrderService)
        → ((ts : List Turn) → session (t ∷ ts) s ≡ session ts (h s).1)
        → CarriesOut turns (h s).1 (repl_loop turns (h s).1)
        → CarriesOut (t ∷ turns) s (then_loop h turns s)
    then_loop-CarriesOut h t turns s head rest =
        let u = (h s).1 in
        let v = (repl_loop turns u).1 in
        let r = (repl_loop turns u).0 in
        elim (Result-cases (h s).0) [
          | inl (a, e) ↦ elim (Result-cases r) [
            | inl (b, k) ↦
                rw (then_loop, ◌>>=◌, e, k)
                  (longer t turns s u v r _ head (λ fails lines. absurd (fails b k)) rest)
            | inr (inl k) ↦
                rw (then_loop, ◌>>=◌, e, k)
                  (longer t turns s u v r _ head (λ fails lines n. cc) rest)
            | inr (inr (x, k)) ↦
                rw (then_loop, ◌>>=◌, e, k)
                  (longer t turns s u v r _ head (λ fails lines n. cc) rest)
          ]
          | inr (inl e) ↦ rw (then_loop, ◌>>=◌, e) (inr (λ lines n. cc, 0, sym (head [])))
          | inr (inr (x, e)) ↦ rw (then_loop, ◌>>=◌, e) (inr (λ lines n. cc, 0, sym (head [])))
        ]

    -- What the loop does with a line, by its words.
    module _ (t : Turn) (turns : List Turn) (s : OrderService) where
      ended : t.input ≡ none → repl_loop (t ∷ turns) s ≡ (ok [], s)
      unfolding repl_loop
      ended e = rw (e, repl_loop) refl

      empty_read : t.input ≡ some String.[] → repl_loop (t ∷ turns) s ≡ (ok [], s)
      unfolding repl_loop
      empty_read e = rw (e, repl_loop) refl

      module _ (c : Char) (text : String) (e : t.input ≡ some (String.◌∷◌ c text)) where
        blank :
            split_whitespace (String.◌∷◌ c text) ≡ [] → repl_loop (t ∷ turns) s ≡ repl_loop turns s
        unfolding repl_loop
        blank k = rw (e, k, repl_loop) refl

        module _ (w : String) (words : List String)
            (k : split_whitespace (String.◌∷◌ c text) ≡ w ∷ words) where
          leaving : arm t.id t.clock (verb w) words ≡ none → repl_loop (t ∷ turns) s ≡ (ok [], s)
          unfolding repl_loop
          leaving n = rw (e, k, n, repl_loop) refl

          handling :
              (h : Handler)
              → arm t.id t.clock (verb w) words ≡ some h
              → repl_loop (t ∷ turns) s ≡ then_loop h turns s
          unfolding repl_loop
          handling h n = rw (e, k, n, repl_loop) refl

    -- A session, by the meaning of its first line.
    module _ (t : Turn) (turns : List Turn) (s : OrderService) where
      session_stops : of_line t.input ≡ stops → session (t ∷ turns) s ≡ s
      session_stops e = rw (e, session) refl

      session_nothing : of_line t.input ≡ nothing → session (t ∷ turns) s ≡ session turns s
      session_nothing e = rw (e, session) refl

      session_asks :
          (r : Request)
          → of_line t.input ≡ asks r
          → session (t ∷ turns) s ≡ session turns (perform t.id t.clock r s)
      session_asks r e = rw (e, session) refl

    carried :
        (t : Turn) (turns : List Turn) (s : OrderService)
        → session (t ∷ turns) s ≡ s
        → repl_loop (t ∷ turns) s ≡ (ok [], s)
        → CarriesOut (t ∷ turns) s (repl_loop (t ∷ turns) s)
    carried t turns s stopped e = rw e (inl (sym stopped))

    -- The line of a handler, by what its words mean.
    handled :
        (t : Turn) (turns : List Turn) (s : OrderService) (h : Handler) (m : Meaning)
        → Follows t.id t.clock (some h) m
        → of_line t.input ≡ m
        → ((u : OrderService) → CarriesOut turns u (repl_loop turns u))
        → CarriesOut (t ∷ turns) s (then_loop h turns s)
    handled t turns s h stops follows e rest = absurd follows
    handled t turns s h nothing follows e rest =
        then_loop-CarriesOut h t turns s
          (λ ts. session_nothing t ts s e ∙ ap (session ts) (sym (follows s))) (rest (h s).1)
    handled t turns s h (asks r) follows e rest =
        then_loop-CarriesOut h t turns s
          (λ ts. session_asks t ts s r e ∙ ap (session ts) (sym (follows s))) (rest (h s).1)

    none_stops :
        (id : P.Ulid) (clock : ℕ → P.Timestamp) (a : Option Handler) (m : Meaning)
        → Follows id clock a m
        → a ≡ none
        → m ≡ stops
    none_stops id clock none stops f e = refl
    none_stops id clock none nothing f e = absurd f
    none_stops id clock none (asks r) f e = absurd f
    none_stops id clock (some h) m f e = absurd (cc)

    spoken :
        (t : Turn) (turns : List Turn) (s : OrderService) (c : Char) (text w : String)
        (words : List String)
        → t.input ≡ some (String.◌∷◌ c text)
        → split_whitespace (String.◌∷◌ c text) ≡ w ∷ words
        → ((u : OrderService) → CarriesOut turns u (repl_loop turns u))
        → CarriesOut (t ∷ turns) s (repl_loop (t ∷ turns) s)
    spoken t turns s c text w words e k rest =
        let means : of_line t.input ≡ command (verb w) words = ap of_line e ∙ ap of_words k in
        let follows = arm-Follows t.id t.clock (verb w) words in
        elim (Option-cases (arm t.id t.clock (verb w) words)) [
          | inl n ↦
              carried t turns s
                (session_stops t turns s (means ∙ none_stops t.id t.clock _ _ follows n))
                (leaving t turns s c text e w words k n)
          | inr (h, n) ↦
              rw (handling t turns s c text e w words k h n)
                (handled t turns s h (command (verb w) words) (rw n at follows) means rest)
        ]

    repl_loop-CarriesOut :
        (turns : List Turn) (s : OrderService) → CarriesOut turns s (repl_loop turns s)
    unfolding repl_loop
    repl_loop-CarriesOut [] s = inl refl
    repl_loop-CarriesOut (t ∷ turns) s = elim (Option-cases t.input) [
      | inl e ↦ carried t turns s (session_stops t turns s (ap of_line e)) (ended t turns s e)
      | inr (String.[], e) ↦
          carried t turns s (session_stops t turns s (ap of_line e)) (empty_read t turns s e)
      | inr (String.◌∷◌ c text, e) ↦ elim (List-cases (split_whitespace (String.◌∷◌ c text))) [
        | inl k ↦
            let same = blank t turns s c text e k in
            let means : of_line t.input ≡ nothing = ap of_line e ∙ ap of_words k in
            subst (CarriesOut (t ∷ turns) s) (sym same) (
              longer t turns s s _ _ _ (λ ts. session_nothing t ts s means) (λ fails. fails)
                (repl_loop-CarriesOut turns s))
        | inr (w, words, k) ↦
            spoken t turns s c text w words e k (λ u. repl_loop-CarriesOut turns u)
      ]
    ]

    pub run_repl-CarriesOut :
        (turns : List Turn) (s : OrderService) → CarriesOut turns s (run_repl turns s)
    unfolding run_repl
    run_repl-CarriesOut turns s =
        let loop = repl_loop-CarriesOut turns s in
        elim (Result-cases (repl_loop turns s).0) [
          | inl (a, e) ↦ rw (run_repl, ◌>>=◌, e) (whole turns s a loop e)
          | inr (inl e) ↦ rw (run_repl, ◌>>=◌, e) (weaker turns s (λ lines n. cc) loop)
          | inr (inr (x, e)) ↦ rw (run_repl, ◌>>=◌, e) (weaker turns s (λ lines n. cc) loop)
        ]
