-- ===== src/Event/Lookup/Paths.antt =====
-- The four `_path` methods of src/wide_event.rs update the path map at their path and nowhere else.
use wide_log.Prelude.{
  ℕ, ◌≡◌, ◌≢◌, refl, sym, ◌∙◌, ap, Option, some, List, [], ◌∷◌, arith, inl, inr, ◌>>=◌, >>=-eq-some,
  ◌==◌, ==_iff, if◌then◌else◌,
}
use wide_log.Prelude.Int.{ℤ}
use wide_log.Value.{Value, WideEvent, object}
use wide_log.Value.SlotVec.{is_none}
use wide_log.Event.{
  Context, slot, store, ensure_capacity, with_object, descend_mut, at_path, add, inc, dec, add_n,
  inc_value, dec_value, add_n_value, add_path, inc_path, dec_path, add_n_path,
}
use wide_log.Event.Counted.{length-ensure_capacity, slot-ensure_capacity}
use wide_log.Event.Total.{slot-store}
use wide_log.Event.Lookup.{
  Observes, follow, lookup, Apart, Updates, PathUpdate, with_object_inv, follow-object_slot,
}

-- The fast paths for one and two segments are the general loop.
pub at_path-descend_mut :
    {K : Type 0} (cx : Context K) (k : K) (rest : List K) (f : K → WideEvent → Option WideEvent)
    (e : WideEvent)
    → at_path cx (k ∷ rest) f e ≡ descend_mut cx k rest f e
unfolding descend_mut
at_path-descend_mut cx k [] f e = refl
at_path-descend_mut cx k (b ∷ []) f e = refl
at_path-descend_mut cx k (b ∷ c ∷ rest) f e = refl

module _ {K : Type 0} (cx : Context K) (obs : Observes cx)
    (value : Option Value → Option Value) where
  leaf-PathUpdate :
      (f : K → WideEvent → Option WideEvent)
      → Updates cx value f
      → (k : K) (e e' : WideEvent) → f k e ≡ some e'
      → PathUpdate cx value (k ∷ []) e e'
  unfolding lookup follow
  leaf-PathUpdate f up k e e' eq = record {
    written = up.written k e e' eq;
    untouched = λ q apart. away q apart;
  }
    where
      away : (q : List K) → Apart cx (k ∷ []) q → lookup cx q e' ≡ lookup cx q e
      away [] apart = absurd apart
      away (b ∷ q) (inl ne) = ap (follow cx q) (up.untouched k e e' (cx.key.as_index b) eq ne)
      away (b ∷ q) (inr (same, apart)) = absurd apart

  node-PathUpdate :
      (f : WideEvent → Option WideEvent) (k n : K) (rest : List K)
      → ((c c' : WideEvent) → f c ≡ some c' → PathUpdate cx value (n ∷ rest) c c')
      → (e e' : WideEvent) → with_object cx k f e ≡ some e'
      → PathUpdate cx value (k ∷ n ∷ rest) e e'
  unfolding lookup follow
  node-PathUpdate f k n rest below e e' eq =
      let (child, child', there, made, here, others) = with_object_inv cx obs k f e e' eq in
      let ih = below child child' made in
      let old = λ (j : K) (q : List K). follow-object_slot cx obs k j q e child there in
      let new' = λ (j : K) (q : List K). ap (follow cx (j ∷ q)) here in
      let (v, was, is) = ih.written in
      record {
        written = (v, rw (old n rest) was, new' n rest ∙ is);
        untouched = away child child' here others ih old;
      }
    where
      away :
          (child child' : WideEvent)
          → slot (cx.key.as_index k) e' ≡ some (object child')
          → ((j : ℕ) → cx.key.as_index k ≢ j → slot j e' ≡ slot j e)
          → PathUpdate cx value (n ∷ rest) child child'
          → ((j : K) (q : List K)
              → follow cx (j ∷ q) (slot (cx.key.as_index k) e)
                ≡ follow cx q (slot (cx.key.as_index j) child))
          → (q : List K) → Apart cx (k ∷ n ∷ rest) q
          → lookup cx q e' ≡ lookup cx q e
      away child child' here others ih old [] apart = absurd apart
      away child child' here others ih old (b ∷ q) (inl ne) =
          ap (follow cx q) (others (cx.key.as_index b) ne)
      away child child' here others ih old (b ∷ []) (inr (same, apart)) = absurd apart
      away child child' here others ih old (b ∷ c ∷ q) (inr (same, apart)) =
          rw (← same) (ap (follow cx (c ∷ q)) here ∙ ih.untouched (c ∷ q) apart ∙ sym (old c q))

  descend_mut-PathUpdate :
      (f : K → WideEvent → Option WideEvent)
      → Updates cx value f
      → (k : K) (rest : List K) (e e' : WideEvent) → descend_mut cx k rest f e ≡ some e'
      → PathUpdate cx value (k ∷ rest) e e'
  unfolding descend_mut
  descend_mut-PathUpdate f up k [] e e' eq = leaf-PathUpdate f up k e e' eq
  descend_mut-PathUpdate f up k (n ∷ rest) e e' eq =
      node-PathUpdate (descend_mut cx n rest f) k n rest
        (λ c c' h. descend_mut-PathUpdate f up n rest c c' h) e e' eq

  -- An action that updates its key's slot updates, through `at_path`, the value at the path.
  pub at_path-PathUpdate :
      (f : K → WideEvent → Option WideEvent)
      → Updates cx value f
      → (k : K) (rest : List K) (e e' : WideEvent) → at_path cx (k ∷ rest) f e ≡ some e'
      → PathUpdate cx value (k ∷ rest) e e'
  at_path-PathUpdate f up k rest e e' eq =
      descend_mut-PathUpdate f up k rest e e' (sym (at_path-descend_mut cx k rest f e) ∙ eq)

module _ {K : Type 0} (cx : Context K) (value : Option Value → Option Value) where
  -- `add`, `inc`, `dec` and `add_n` have this form.
  abbrev pub rewrite_slot : K → WideEvent → Option WideEvent
  rewrite_slot k e =
      let e₁ = ensure_capacity (cx.key.as_index k) e in
      value (slot (cx.key.as_index k) e₁) >>= λ v.
      some (store (cx.key.as_index k) v (is_none (slot (cx.key.as_index k) e₁)) e₁)

  rewrite_slot-stored :
      (k : K) (e e' : WideEvent)
      → rewrite_slot k e ≡ some e'
      → (v : Value) × (value (slot (cx.key.as_index k) e) ≡ some v)
        × ((j : ℕ) → slot j e' ≡ (if cx.key.as_index k == j then some v else slot j e))
  rewrite_slot-stored k e e' eq =
      let i = cx.key.as_index k in
      let e₁ = ensure_capacity i e in
      let (v, made, stored) = >>=-eq-some (value (slot i e₁)) _ eq in
      let same : store i v (is_none (slot i e₁)) e₁ ≡ e' = cc stored in
      (
        v,
        ap value (sym (slot-ensure_capacity i i e)) ∙ made,
        λ j.
            ap (slot j) (sym same)
            ∙ slot-store i j v (is_none (slot i e₁)) e₁ (length-ensure_capacity i e)
            ∙ ap (λ o. if i == j then some v else o) (slot-ensure_capacity i j e),
      )

  pub rewrite_slot-Updates : Updates cx value rewrite_slot
  rewrite_slot-Updates = record {
    written = λ k e e' eq.
        let (v, made, at) = rewrite_slot-stored k e e' eq in
        (
          v,
          made,
          at (cx.key.as_index k) ∙ rw ((==_iff (cx.key.as_index k) (cx.key.as_index k)).1 refl),
        );
    untouched =
        λ k e e' j eq ne. let (v, made, at) = rewrite_slot-stored k e e' eq in at j ∙ ground arith;
  }

module _ {K : Type 0} (cx : Context K) (obs : Observes cx) where
  pub add_path-PathUpdate :
      (k : K) (rest : List K) (v : Value) (e e' : WideEvent)
      → add_path cx (k ∷ rest) v e ≡ some e'
      → PathUpdate cx (λ o. some v) (k ∷ rest) e e'
  unfolding add_path add
  add_path-PathUpdate k rest v =
      at_path-PathUpdate cx obs (λ o. some v) _ (rewrite_slot-Updates cx (λ o. some v)) k rest

  pub inc_path-PathUpdate :
      (k : K) (rest : List K) (e e' : WideEvent)
      → inc_path cx (k ∷ rest) e ≡ some e'
      → PathUpdate cx (inc_value cx) (k ∷ rest) e e'
  unfolding inc_path inc
  inc_path-PathUpdate k rest =
      at_path-PathUpdate cx obs (inc_value cx) _ (rewrite_slot-Updates cx (inc_value cx)) k rest

  pub dec_path-PathUpdate :
      (k : K) (rest : List K) (e e' : WideEvent)
      → dec_path cx (k ∷ rest) e ≡ some e'
      → PathUpdate cx (dec_value cx) (k ∷ rest) e e'
  unfolding dec_path dec
  dec_path-PathUpdate k rest =
      at_path-PathUpdate cx obs (dec_value cx) _ (rewrite_slot-Updates cx (dec_value cx)) k rest

  pub add_n_path-PathUpdate :
      (k : K) (rest : List K) (n : ℤ) (e e' : WideEvent)
      → add_n_path cx (k ∷ rest) n e ≡ some e'
      → PathUpdate cx (add_n_value cx n) (k ∷ rest) e e'
  unfolding add_n_path add_n
  add_n_path-PathUpdate k rest n =
      at_path-PathUpdate cx obs (add_n_value cx n) _ (rewrite_slot-Updates cx (add_n_value cx n)) k
        rest
