-- ===== src/Eki/Receive.antt =====
-- What the io thread of `EkiBridgeRuntime::run` does with the bytes that it receives: the splitter, the
-- parser and the session, one after the other.
use kuka_iiqka_ros.Prelude.{ℕ, List, [], ◌∷◌, none, some}
use kuka_iiqka_ros.Double.{Double}
use kuka_iiqka_ros.Xml.{Xml}
use kuka_iiqka_ros.Eki.Bridge.{Bridge, on_document, on_tick, on_connected}
use kuka_iiqka_ros.Eki.Frame.{parse_state}
use kuka_iiqka_ros.Eki.Splitter.{feed}

pub record Io (F : Type 0) : Type 0 where
  pub bridge : Bridge F
  pub splitter : List ℕ

module _ {E F : Type 0} (xml : Xml E F) where
  -- The documents of a call of the sink, in order.
  unfoldable pub on_documents : Bridge F → List (List ℕ) → F → Bridge F
  on_documents b [] now_s = b
  on_documents b (doc ∷ docs) now_s =
      on_documents (on_document b (parse_state xml doc) now_s) docs now_s

module _ {F : Type 0} ⦃d : Double F⦄ where
  unfoldable pub on_link_up : Io F → Io F
  on_link_up s = record { bridge = on_connected s.bridge; splitter = [] }

  -- Bytes that came; none of them is a receive whose wait is over.
  unfoldable pub on_received : {E : Type 0} → Xml E F → Io F → List ℕ → F → Io F
  on_received xml s [] now_s = record s { bridge = on_tick s.bridge now_s }
  on_received xml s (byte ∷ bytes) now_s = elim (feed s.splitter (byte ∷ bytes)) [
    | none ↦ s
    | some r ↦ record {
      bridge = on_tick (on_documents xml s.bridge r.0 now_s) now_s;
      splitter = r.1;
    }
  ]
