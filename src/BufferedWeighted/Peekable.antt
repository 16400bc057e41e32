-- ===== src/BufferedWeighted/Peekable.antt =====
-- peekable_fused.rs, over a fused stream of items with weights.
use rust_shed.Prelude.{ℕ, ◌+◌, ◌<◌, ◌≡◌, refl, arith, ap, Bool, Option, none, some, is_none, ◌&&◌}
pub use rust_shed.Prelude.Results.{Polled, pending, ready}

-- A fused stream that is ready with a limited number of items at once.
pub record Source (S F : Type 0) : Type 0 where
  pub poll_next : S → Polled (Option (ℕ × F)) × S
  pub is_terminated : S → Bool
  pub at_once : S → ℕ
  pub poll_next_lem :
      (s t : S) (item : ℕ × F) → poll_next s ≡ (ready (some item), t) → at_once t < at_once s

module _ (S F : Type 0) where
  pub record PeekableFused : Type 0 where
    pub stream : S
    pub peeked : Option (ℕ × F)

module _ {S F : Type 0} where
  unfoldable pub new_peekable : S → PeekableFused S F
  new_peekable stream = record { stream = stream; peeked = none }

module _ {S F : Type 0} ⦃source : Source S F⦄ where
  -- `is_done`, which asks the stream below only.
  unfoldable pub is_done : PeekableFused S F → Bool
  is_done self = source.is_terminated self.stream

  -- `FusedStream::is_terminated`
  unfoldable pub is_terminated : PeekableFused S F → Bool
  is_terminated self = is_none self.peeked && source.is_terminated self.stream

  -- Behind a poll of the stream below: an item is kept.
  abbrev keep : Polled (Option (ℕ × F)) × S → Polled (Option (ℕ × F)) × PeekableFused S F
  keep (pending, t) = (pending, record { stream = t; peeked = none })
  keep (ready none, t) = (ready none, record { stream = t; peeked = none })
  keep (ready (some item), t) = (ready (some item), record { stream = t; peeked = some item })

  unfoldable pub poll_peek : PeekableFused S F → Polled (Option (ℕ × F)) × PeekableFused S F
  poll_peek self = elim self.peeked [
    | some item ↦ (ready (some item), self)
    | none ↦ keep (source.poll_next self.stream)
  ]

  -- `Stream::poll_next`
  unfoldable pub poll_item : PeekableFused S F → Polled (Option (ℕ × F)) × PeekableFused S F
  poll_item self = elim self.peeked [
    | some item ↦ (ready (some item), record self { peeked = none })
    | none ↦ let (r, t) = source.poll_next self.stream in (r, record { stream = t; peeked = none })
  ]

  -- The items that a stream can still give at once.
  abbrev pub stock : PeekableFused S F → ℕ
  stock self = elim self.peeked [
    | none ↦ source.at_once self.stream
    | some item ↦ source.at_once self.stream + 1
  ]

  pub data PeekCase (self : PeekableFused S F) : Type 0 where
    waits :
        (t : PeekableFused S F) → poll_peek self ≡ (pending, t) → t.peeked ≡ none → PeekCase self
    ends :
        (t : PeekableFused S F) → poll_peek self ≡ (ready none, t) → t.peeked ≡ none → PeekCase self
    item :
        (weight : ℕ) (future : F) (t : S)
        → poll_peek self
          ≡ (ready (some (weight, future)), record { stream = t; peeked = some (weight, future) })
        → source.at_once t < stock self
        → PeekCase self

  pub peek_cases : (self : PeekableFused S F) → PeekCase self
  unfolding poll_peek
  peek_cases self = go self.stream self.peeked
    where
      polled :
          (s : S) (r : Polled (Option (ℕ × F))) (t : S)
          → source.poll_next s ≡ (r, t)
          → PeekCase (record { stream = s; peeked = none })
      polled s pending t e = waits (record { stream = t; peeked = none }) (ap keep e) refl
      polled s (ready none) t e = ends (record { stream = t; peeked = none }) (ap keep e) refl
      polled s (ready (some (w, f))) t e =
          item w f t (ap keep e) (source.poll_next_lem s t (w, f) e)

      go : (s : S) (p : Option (ℕ × F)) → PeekCase (record { stream = s; peeked = p })
      go s (some (w, f)) = item w f s refl (omega arith)
      go s none = polled s (source.poll_next s).0 (source.poll_next s).1 refl
