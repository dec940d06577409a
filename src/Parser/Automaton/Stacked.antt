-- ===== src/Parser/Automaton/Stacked.antt =====
-- The tokens that the values on the stack stand for.
use mathlib.Core.List.{append_assoc, append-nil}
use th_lang.Base.{
  ◌≡◌, refl, sym, ap, ◌∙◌, some, List, [], ◌∷◌, ◌++◌, arith, >>=-eq-some, demand, demand-eq-some,
  subst, ==_iff,
}
use th_lang.Parser.Token.{
  Token, mark, word, terminal_number, text_number, terminal_number-injective, text_number-injective,
}
use th_lang.Parser.Grammar.{
  Nonterminal, accept_nt, program_nt, block_nt, stmts_nt, stmt_nt, expr_nt, op_nt, assign_nt,
  for_nt, while_nt, if_nt, var_decl_nt, func_args_nt, func_decl_nt, call_args_nt, types_nt,
  func_type_nt, type_list_nt, type_id_nt, var_id_nt, Symbol, end_symbol, mark_symbol, word_symbol,
  nt, Semantic, Meaning, Meanings, Value,
}
use th_lang.Parser.Rules.{Rule, case_53, case_58, lhs, rhs, make}
use th_lang.Parser.Yield.{semantic_tokens, tokens}
use th_lang.Parser.Automaton.Values.{as_nonterminal, take, pop_value, pop_values}

-- The tokens of a right-hand side, and of the stack, whose top comes last.
unfoldable pub all_tokens : (xs : List Symbol) → Meanings xs → List Token
all_tokens [] ms = []
all_tokens (x ∷ xs) (m, ms) = tokens x m ++ all_tokens xs ms

unfoldable pub stack_tokens : List Value → List Token
stack_tokens [] = []
stack_tokens (v ∷ vs) = stack_tokens vs ++ tokens v.0 v.1

pub make-tokens :
    (r : Rule) (ms : Meanings (rhs r)) → semantic_tokens (lhs r) (make r ms) ≡ all_tokens (rhs r) ms
unfolding semantic_tokens lhs make all_tokens tokens
make-tokens case_53 ms = refl
make-tokens case_58 ms = refl
make-tokens _ ms = simp (append_assoc, append-nil)

as_nonterminal-tokens :
    (a b : Nonterminal) (v : Semantic b) (w : Semantic a)
    → as_nonterminal a b v ≡ some w
    → semantic_tokens a w ≡ semantic_tokens b v
unfolding as_nonterminal
as_nonterminal-tokens accept_nt accept_nt v w h = ap (semantic_tokens accept_nt) (ground (arith, h))
as_nonterminal-tokens program_nt program_nt v w h =
    ap (semantic_tokens program_nt) (ground (arith, h))
as_nonterminal-tokens block_nt block_nt v w h = ap (semantic_tokens block_nt) (ground (arith, h))
as_nonterminal-tokens stmts_nt stmts_nt v w h = ap (semantic_tokens stmts_nt) (ground (arith, h))
as_nonterminal-tokens stmt_nt stmt_nt v w h = ap (semantic_tokens stmt_nt) (ground (arith, h))
as_nonterminal-tokens expr_nt expr_nt v w h = ap (semantic_tokens expr_nt) (ground (arith, h))
as_nonterminal-tokens op_nt op_nt v w h = ap (semantic_tokens op_nt) (ground (arith, h))
as_nonterminal-tokens assign_nt assign_nt v w h = ap (semantic_tokens assign_nt) (ground (arith, h))
as_nonterminal-tokens for_nt for_nt v w h = ap (semantic_tokens for_nt) (ground (arith, h))
as_nonterminal-tokens while_nt while_nt v w h = ap (semantic_tokens while_nt) (ground (arith, h))
as_nonterminal-tokens if_nt if_nt v w h = ap (semantic_tokens if_nt) (ground (arith, h))
as_nonterminal-tokens var_decl_nt var_decl_nt v w h =
    ap (semantic_tokens var_decl_nt) (ground (arith, h))
as_nonterminal-tokens func_args_nt func_args_nt v w h =
    ap (semantic_tokens func_args_nt) (ground (arith, h))
as_nonterminal-tokens func_decl_nt func_decl_nt v w h =
    ap (semantic_tokens func_decl_nt) (ground (arith, h))
as_nonterminal-tokens call_args_nt call_args_nt v w h =
    ap (semantic_tokens call_args_nt) (ground (arith, h))
as_nonterminal-tokens types_nt types_nt v w h = ap (semantic_tokens types_nt) (ground (arith, h))
as_nonterminal-tokens func_type_nt func_type_nt v w h =
    ap (semantic_tokens func_type_nt) (ground (arith, h))
as_nonterminal-tokens type_list_nt type_list_nt v w h =
    ap (semantic_tokens type_list_nt) (ground (arith, h))
as_nonterminal-tokens type_id_nt type_id_nt v w h =
    ap (semantic_tokens type_id_nt) (ground (arith, h))
as_nonterminal-tokens var_id_nt var_id_nt v w h = ap (semantic_tokens var_id_nt) (ground (arith, h))
as_nonterminal-tokens _ _ v w h = absurd (ground (arith, h))

take-tokens :
    (x : Symbol) (v : Value) (m : Meaning x) → take x v ≡ some m → tokens x m ≡ tokens v.0 v.1
unfolding take tokens
take-tokens end_symbol (end_symbol, u) m h = refl
take-tokens (mark_symbol t) (mark_symbol t', u) m h =
    let e : terminal_number t ≡ terminal_number t' =
      ground (arith, h, ==_iff (terminal_number t) (terminal_number t')) in
    ap (λ t. mark t ∷ []) (terminal_number-injective t t' e)
take-tokens (word_symbol k) (word_symbol k', s) m h =
    let e : text_number k ≡ text_number k' =
      ground (arith, h, ==_iff (text_number k) (text_number k')) in
    let same : k ≡ k' = text_number-injective k k' e in
    let text : s ≡ m = ground (arith, h) in
    ap (λ k. word k m ∷ []) same ∙ ap (λ s. word k' s ∷ []) (sym text)
take-tokens (nt a) (nt b, v) m h = as_nonterminal-tokens a b v m h
take-tokens _ _ m h = absurd (ground (arith, h))

pop_value-tokens :
    (vs vs' : List Value) (v : Value)
    → pop_value vs ≡ some (v, vs')
    → stack_tokens vs ≡ stack_tokens vs' ++ tokens v.0 v.1
unfolding pop_value stack_tokens
pop_value-tokens [] vs' v h = absurd (ground (arith, h))
pop_value-tokens (w ∷ ws) vs' v h =
    let e : w ∷ ws ≡ v ∷ vs' = ground (arith, h) in ap stack_tokens e

pub pop_values-tokens :
    (xs : List Symbol) (vs vs' : List Value) (ms : Meanings xs)
    → pop_values xs vs ≡ some (ms, vs')
    → stack_tokens vs ≡ stack_tokens vs' ++ all_tokens xs ms
unfolding pop_values all_tokens
pop_values-tokens [] vs vs' ms h =
    let e : vs ≡ vs' = ground (arith, h) in ap stack_tokens e ∙ sym (append-nil (stack_tokens vs'))
pop_values-tokens (x ∷ xs) vs vs' (m, ms) h =
    let (ms₁, vs₁, first, rest) = >>=-eq-some (pop_values xs) _ vs h in
    let (v, vs₂, second, rest') = >>=-eq-some pop_value _ vs₁ rest in
    let (m₁, vs₃, third, rest'') = >>=-eq-some (demand (take x v)) _ vs₂ rest' in
    let (taken, same) = demand-eq-some (take x v) vs₂ vs₃ m₁ third in
    let e : ◌≡◌ {A = Meanings (x ∷ xs) × List Value} ((m₁, ms₁), vs₃) ((m, ms), vs') =
      ground (arith, rest'') in
    subst (λ r. stack_tokens vs ≡ stack_tokens r.1 ++ (tokens x r.0.0 ++ all_tokens xs r.0.1)) e
      (pop_values-tokens xs vs vs₁ ms₁ first
        ∙ ap (λ ts. ts ++ all_tokens xs ms₁)
            (pop_value-tokens vs₁ vs₂ v second
              ∙ ap (λ us. stack_tokens us ++ tokens v.0 v.1) same
              ∙ ap (λ ts. stack_tokens vs₃ ++ ts) (sym (take-tokens x v m₁ taken)))
        ∙ append_assoc (stack_tokens vs₃) (tokens x m₁) (all_tokens xs ms₁))
