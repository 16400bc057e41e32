-- ===== src/BoundedTraversal/StreamItems.antt =====
-- The items of a stream, one by one: what is to be yielded when an item is taken or put.
use rust_shed.Prelude.{
  ℕ, ◌+◌, ◌≡◌, refl, sym, ap, ◌∙◌, subst, List, [], ◌∷◌, ◌++◌, append_assoc, arith,
}
use rust_shed.Prelude.Results.{Result, ok, err}
use rust_shed.BoundedTraversal.Tables.{total, total-append}
use rust_shed.BoundedTraversal.Streams.{
  TraversalStream, yields, push_all_front, unfolded, Yields, YieldsAll, fails, node, no_item, items,
}

module _ {In Out Err : Type 0} (unfold_fn : In → Result (Out × List In) Err) where
  -- An item takes its part out of what is to be yielded.
  take_item :
      (before : List In) (i : In) (behind : List In) (outs : List (Result Out Err))
      → YieldsAll unfold_fn (before ++ (i ∷ behind)) outs
      → (first : List (Result Out Err)) × (rest : List (Result Out Err)) × Yields unfold_fn i first
        × YieldsAll unfold_fn (before ++ behind) rest
        × ((f : Result Out Err → ℕ) → total f outs ≡ total f first + total f rest)
  take_item [] i behind outs (items first rest y ys e) =
      (first, rest, y, ys, λ f. ap (total f) e ∙ total-append f first rest)
  take_item (x ∷ before) i behind outs (items own others y ys e) =
      let (first, rest, yi, yr, sums) = take_item before i behind others ys in
      (
        first,
        own ++ rest,
        yi,
        items own rest y yr refl,
        λ f.
            omega
              (arith, ap (total f) e, total-append f own others, total-append f own rest, sums f),
      )

  put_item :
      (before : List In) (i : In) (behind : List In) (first rest : List (Result Out Err))
      → Yields unfold_fn i first
      → YieldsAll unfold_fn (before ++ behind) rest
      → (outs : List (Result Out Err)) × YieldsAll unfold_fn (before ++ (i ∷ behind)) outs
        × ((f : Result Out Err → ℕ) → total f outs ≡ total f first + total f rest)
  put_item [] i behind first rest y ys =
      (first ++ rest, items first rest y ys refl, λ f. total-append f first rest)
  put_item (x ∷ before) i behind first rest y (items own others yx ys e) =
      let (outs, all, sums) = put_item before i behind first others y ys in
      (
        own ++ outs,
        items own outs yx all refl,
        λ f.
            omega
              (arith, ap (total f) e, total-append f own others, total-append f own outs, sums f),
      )

  put_items :
      (children s u : List In) (below rest : List (Result Out Err))
      → YieldsAll unfold_fn children below
      → YieldsAll unfold_fn (s ++ u) rest
      → (outs : List (Result Out Err)) × YieldsAll unfold_fn (s ++ push_all_front children u) outs
        × ((f : Result Out Err → ℕ) → total f outs ≡ total f below + total f rest)
  put_items [] s u below rest (no_item e) ys = (rest, ys, λ f. omega (arith, ap (total f) e))
  put_items (c ∷ cs) s u below rest (items first others y yc e) ys =
      let (middle, ym, sum) = put_item s c u first rest y ys in
      let (outs, yo, sums) = put_items cs s (c ∷ u) others middle yc ym in
      (outs, yo, λ f. omega (arith, ap (total f) e, total-append f first others, sum f, sums f))

  -- A future of the queue yields one item, and its children wait.
  pub unfolded-YieldsAll :
      (self : TraversalStream In) (before : List In) (i : In) (behind : List In)
      (outs : List (Result Out Err))
      → self.scheduled ≡ before ++ behind
      → YieldsAll unfold_fn ((before ++ (i ∷ behind)) ++ self.unscheduled) outs
      → (r : Result Out Err) × (self' : TraversalStream In) × (rest : List (Result Out Err))
        × (unfolded unfold_fn self i ≡ yields r self')
        × (self'.scheduled ≡ self.scheduled)
        × YieldsAll unfold_fn (self'.scheduled ++ self'.unscheduled) rest
        × ((f : Result Out Err → ℕ) → total f outs ≡ f r + total f rest)
  unfolding unfolded
  unfolded-YieldsAll self before i behind outs same ys =
      let u : List In = self.unscheduled in
      let (first, rest, y, others, sums) =
        take_item before i (behind ++ u) outs
          (subst (λ z. YieldsAll unfold_fn z outs) (append_assoc before (i ∷ behind) u) ys) in
      let kept =
        subst (λ z. YieldsAll unfold_fn z rest)
          (sym (append_assoc before behind u) ∙ ap (λ z. z ++ u) (sym same)) others in
      one first rest y kept sums
    where
      one :
          (first rest : List (Result Out Err))
          → Yields unfold_fn i first
          → YieldsAll unfold_fn (self.scheduled ++ self.unscheduled) rest
          → ((f : Result Out Err → ℕ) → total f outs ≡ total f first + total f rest)
          → (r : Result Out Err) × (self' : TraversalStream In) × (rest : List (Result Out Err))
            × (unfolded unfold_fn self i ≡ yields r self')
            × (self'.scheduled ≡ self.scheduled)
            × YieldsAll unfold_fn (self'.scheduled ++ self'.unscheduled) rest
            × ((f : Result Out Err → ℕ) → total f outs ≡ f r + total f rest)
      one first rest (fails e u h) kept sums = (
        err e,
        self,
        rest,
        rw (unfolded, u) refl,
        refl,
        kept,
        λ f. omega (arith, sums f, ap (total f) h),
      )
      one first rest (node o children below u ys h) kept sums =
          let (all, ya, sum) =
            put_items children self.scheduled self.unscheduled below rest ys kept in
          (
            ok o,
            record self { unscheduled = push_all_front children self.unscheduled },
            all,
            rw (unfolded, u) refl,
            refl,
            ya,
            λ f. omega (arith, sums f, ap (total f) h, sum f),
          )
