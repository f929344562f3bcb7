-- ===== src/Parser/Handled.antt =====
-- What becomes of one complete line, by its type, while a response is awaited.
use attentive.Base.{
  ℕ, ◌+◌, ◌^◌, ◌<◌, ◌≡◌, ◌≢◌, refl, ap, ◌∙◌, none, [], ◌∷◌, ◌++◌, arith, length, lt→ltb,
}
use attentive.Base.Text.{Bytes}
use attentive.Response
use attentive.Response.{ResponseType}
use attentive.Parser.{readline, rawdata, hexdata, is_idle, Callbacks}
use attentive.Parser.Feed.{classify}
use attentive.Parser.Spec
use attentive.Parser.Spec.{View}

module _ {P : Type 0} where
  -- The view once the line is read, kept with its newline.
  abbrev pub with_line : View P → Bytes → View P
  with_line v line = record v { line = line }

  abbrev pub keep_line : View P → Bytes → View P
  keep_line v line = record v { kept = v.kept ++ (line ++ (b'\n' ∷ [])); line = [] }

  pub include-keep :
      (v : View P) (line : Bytes)
      → length v.kept + length line + 1 < v.size
      → Spec.include_line (with_line v line) ≡ keep_line v line
  unfolding Spec.include_line Spec.append
  include-keep v line room = rw (lt→ltb (length v.kept + length line + 1) v.size room) refl

  module _ (cbs : Callbacks P) where
    -- While a response is awaited, the line is of the type, and scanning it leaves the private state.
    abbrev pub Sees : ResponseType → Bytes → P → P → Type 0
    Sees type line s s' = classify cbs readline line s ≡ (type, s')

    pub handle-Sees :
        (type : ResponseType) (v : View P) (s s' : P) (line : Bytes)
        → v.state ≡ readline
        → line ≢ []
        → Sees type line s s'
        → Spec.handle_text cbs v line s ≡ Spec.dispatch cbs type line v s'
    unfolding Spec.handle_text
    handle-Sees type v s s' [] st ne sees = absurd (ne refl)
    handle-Sees type v s s' (c ∷ cs) st ne sees =
        rw (ap (λ t. classify cbs t (c ∷ cs) s) st ∙ sees) refl

    module _ (v : View P) (s : P) (line : Bytes) (st : v.state ≡ readline) where
      pub dispatch-intermediate :
          length v.kept + length line + 1 < v.size
          → Spec.dispatch cbs Response.intermediate line (with_line v line) s
            ≡ (keep_line v line, s)
      unfolding Spec.dispatch Spec.act
      dispatch-intermediate room = rw (ap is_idle st) (ap (λ w. (w, s)) (include-keep v line room))

      pub dispatch-urc :
          Spec.dispatch cbs Response.urc line (with_line v line) s
          ≡ (record v { line = [] }, cbs.handle_urc line s)
      unfolding Spec.dispatch Spec.discard_line
      dispatch-urc = refl

      pub dispatch-final_ok :
          Spec.dispatch cbs Response.final_ok line (with_line v line) s
          ≡ (Spec.reset v, cbs.handle_response (Spec.drop_last v.kept) s)
      unfolding Spec.dispatch Spec.act Spec.reset Spec.discard_line
      dispatch-final_ok = rw (ap is_idle st)

      pub dispatch-final :
          length v.kept + length line + 1 < v.size
          → Spec.dispatch cbs Response.final line (with_line v line) s ≡ (
            Spec.reset v,
            cbs.handle_response (Spec.drop_last (v.kept ++ (line ++ (b'\n' ∷ [])))) s,
          )
      unfolding Spec.dispatch Spec.act Spec.reset
      dispatch-final room = rw (ap is_idle st) (rw (include-keep v line room))

      pub dispatch-rawdata :
          (n : ℕ)
          → n < 2 ^ 23
          → length v.kept + length line + 1 < v.size
          → Spec.dispatch cbs (Response.rawdata_follows n) line (with_line v line) s
            ≡ (record (keep_line v line) { data_left = n; state = rawdata }, s)
      unfolding Spec.dispatch Spec.act Response.rawdata_follows Response.data_amount
      dispatch-rawdata n h room = ground (arith, st, include-keep v line room)

      pub dispatch-hexdata :
          (n : ℕ)
          → n < 2 ^ 23
          → length v.kept + length line + 1 < v.size
          → Spec.dispatch cbs (Response.hexdata_follows n) line (with_line v line) s
            ≡ (record (keep_line v line) { data_left = n; nibble = none; state = hexdata }, s)
      unfolding Spec.dispatch Spec.act Response.hexdata_follows Response.data_amount
      dispatch-hexdata n h room = ground (arith, st, include-keep v line room)
