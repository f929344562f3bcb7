-- ===== src/Posix/Script.antt =====
-- Answers of a modem whose lines the callbacks take alike in every state.
use attentive.Base.{◌<◌, ◌≡◌, ℕ, Option, none, List, [], arith, length, true}
use attentive.Base.Text.{Bytes}
use attentive.Response.{ResponseType}
use attentive.Parser.Lines.{wire}
use attentive.Parser.Exchange.{Item, send}
use attentive.Channel.{AtCallbacks}
use attentive.Channel.Fixed.{IsFixed, AreFixed, data_after, fixed-Sees, fixed-AreSeen}
use attentive.Posix.{Posix}
use attentive.Posix.Exchange.{Idle}
use attentive.Posix.Answer.{EndsWith}

module _ {D : Type 0} (cbs : AtCallbacks D) (size : ℕ) where
  pub fixed-EndsWith :
      (type : ResponseType) (items : List Item) (last : Bytes) (r : Option Bytes) (s : Posix D)
      → AreFixed cbs items
      → IsFixed cbs type last
      → length (send items (wire last [])) < size
      → Idle cbs r s
      → s.at.command_scanner ≡ none
      → s.parser.buf_size ≡ size
      → EndsWith s type items last
          (record (s.at) { waiting = true; arg = data_after cbs items s.at.arg })
  fixed-EndsWith type items last r s h fixed fits i off room = record {
    before = record (s.at) { waiting = true; arg = data_after cbs items s.at.arg };
    seen = fixed-AreSeen cbs (record (s.at) { waiting = true }) i.installed off items s.at.arg h;
    sees =
        fixed-Sees cbs (record (s.at) { waiting = true }) i.installed off type last
          (data_after cbs items s.at.arg) fixed;
    plain = fixed.plain;
    filled = fixed.filled;
    fits = omega (arith, fits, room);
  }
