-- ===== src/Eki/Runtime/Keeps.antt =====
-- What other threads and received bytes leave of the bridge.
use kuka_iiqka_ros.Prelude.{
  ℕ, Option, none, some, List, [], ◌∷◌, ◌≡◌, refl, arith, ◌∙◌, inl, inr, Option-cases,
}
use kuka_iiqka_ros.Double.{Double}
use kuka_iiqka_ros.Xml.{Xml}
use kuka_iiqka_ros.Eki.Session.{EkiStateFrame}
use kuka_iiqka_ros.Eki.Bridge.{Bridge, resolve, execute_begin, execute_end, on_document, on_tick}
use kuka_iiqka_ros.Eki.Frame.{parse_state}
use kuka_iiqka_ros.Eki.Splitter.{feed}
use kuka_iiqka_ros.Eki.Receive.{Io, on_received, on_documents}
use kuka_iiqka_ros.Eki.Runtime.{
  Post, executes, has_executed, wants_link, has_waited, connect_begin, connect_end, post, posts,
}

-- What the sections of the other threads leave as it is.
pub record Keeps {F : Type 0} (b c : Bridge F) : Type 0 where
  pub connected : c.connected ≡ b.connected
  pub session : c.session ≡ b.session

module _ {F : Type 0} ⦃d : Double F⦄ where
  post-Keeps : (b : Bridge F) (p : Post F) → Keeps b (post b p)
  unfolding post connect_begin connect_end execute_begin execute_end
  post-Keeps b (executes action value tool base) = ground arith
  post-Keeps b has_executed = ground arith
  post-Keeps b wants_link = ground arith
  post-Keeps b has_waited = ground arith

  pub posts-Keeps : (b : Bridge F) (ps : List (Post F)) → Keeps b (posts b ps)
  unfolding posts
  posts-Keeps b [] = ground arith
  posts-Keeps b (p ∷ ps) = ground (arith, post-Keeps b p, posts-Keeps (post b p) ps)

  on_document-connected :
      (b : Bridge F) (o : Option (EkiStateFrame F)) (now_s : F)
      → (on_document b o now_s).connected ≡ b.connected
  unfolding on_document resolve
  on_document-connected b none now_s = refl
  on_document-connected b (some f) now_s = ground arith

  on_tick-connected : (b : Bridge F) (now_s : F) → (on_tick b now_s).connected ≡ b.connected
  unfolding on_tick resolve
  on_tick-connected b now_s = ground arith

  module _ {E : Type 0} (xml : Xml E F) where
    on_documents-connected :
        (b : Bridge F) (docs : List (List ℕ)) (now_s : F)
        → (on_documents xml b docs now_s).connected ≡ b.connected
    unfolding on_documents
    on_documents-connected b [] now_s = refl
    on_documents-connected b (doc ∷ docs) now_s =
        on_documents-connected (on_document b (parse_state xml doc) now_s) docs now_s
        ∙ on_document-connected b (parse_state xml doc) now_s

    pub on_received-connected :
        (s : Io F) (text : List ℕ) (now_s : F)
        → (on_received xml s text now_s).bridge.connected ≡ s.bridge.connected
    unfolding on_received
    on_received-connected s [] now_s = on_tick-connected s.bridge now_s
    on_received-connected s (b ∷ bs) now_s = elim (Option-cases (feed s.splitter (b ∷ bs))) [
      | inl absent ↦ rw (absent, on_received) refl
      | inr (r, found) ↦
          rw (found, on_received)
            (on_tick-connected (on_documents xml s.bridge r.0 now_s) now_s
              ∙ on_documents-connected s.bridge r.0 now_s)
    ]
