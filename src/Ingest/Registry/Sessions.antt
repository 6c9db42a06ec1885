-- ===== src/Ingest/Registry/Sessions.antt =====
-- Sessions and source ids: what an upgrade moves, how sessions are counted, and where the count of
-- a session that changes its key stays behind.
use ais_server.Prelude.{
  ℕ, ◌≡◌, refl, ap, ◌∙◌, Bool, true, false, none, some, arith, if◌then◌else◌, ◌==◌, nat_eq, ==_refl,
}
use ais_server.Prelude.Text.{Text, text_eqb_iff, text_eq}
use ais_server.Ingest.Registry.{
  NodeInfo, NodeRegistry, connected, new_node, start_update, on_session_start, end_update,
  on_session_end, upgrade_update, set_source_id,
}
use ais_server.Ingest.Registry.Views.{view, map_node, WellKeyed}
use ais_server.Ingest.Registry.Keyed.{found_or, view-on_session_start, on_session_start-WellKeyed}
use ais_server.Ingest.Registry.Moves.{view-on_session_end}
use ais_server.Ingest.Registry.SourceIds.{
  view-set_source_id, set_source_id_taken, set_source_id-WellKeyed,
}

-- The node that the registry shows for a session by host while it runs.
abbrev pub running : NodeRegistry → Text → Text → ℕ → NodeInfo
running r peer host now =
    start_update peer host now (found_or (new_node host host none now now) (view r host))

view-running :
    (r : NodeRegistry) (peer host : Text) (now : ℕ) (j : Text)
    → WellKeyed r
    → view (on_session_start r peer host none now).0 j
      ≡ (if host == j then some (running r peer host now) else view r j)
view-running r peer host now j w = view-on_session_start r peer host none now j w

-- A session that keeps its key leaves the count of active sessions as it was before, and counts
-- as one more session.
pub session_balanced :
    (r : NodeRegistry) (peer host : Text) (now : ℕ)
    → WellKeyed r
    → view (on_session_end (on_session_start r peer host none now).0 host) host
      ≡ some (record (running r peer host now) {
        active_sessions =
            (found_or (new_node host host none now now) (view r host)).active_sessions;
      })
session_balanced r peer host now w =
    view-on_session_end (on_session_start r peer host none now).0 host host
      (on_session_start-WellKeyed r peer host none now w)
    ∙ ap
        (λ b.
          if b
          then map_node end_update (view (on_session_start r peer host none now).0 host)
          else view (on_session_start r peer host none now).0 host)
        (==_refl host)
    ∙ ap (map_node end_update) (
        view-running r peer host now host w
        ∙ ap (λ b. if b then some (running r peer host now) else view r host) (==_refl host))
    ∙ ended (found_or (new_node host host none now now) (view r host))
  where
    ended :
        (m : NodeInfo)
        → some (end_update (start_update peer host now m))
          ≡ some (record (start_update peer host now m) { active_sessions = m.active_sessions })
    ended m = ground arith

if_true {ℓ} : {A : Type ℓ} (b : Bool) (x y : A) → b ≡ true → (if b then x else y) ≡ x
if_true b x y h = rw h refl

if_false {ℓ} : {A : Type ℓ} (b : Bool) (x y : A) → b ≡ false → (if b then x else y) ≡ y
if_false b x y h = rw h refl

-- If neither the host nor the source id is registered before, a session by host whose first tag-block
-- names the source id takes its node, with the session counted, to the source id; ending it there
-- leaves a node without an active session there, and none at the host.
pub session_with_upgrade_balanced :
    (r : NodeRegistry) (peer host source : Text) (now later : ℕ)
    → WellKeyed r
    → (host == source) ≡ false
    → view r host ≡ none
    → view r source ≡ none
    → (view
          (on_session_end
            (set_source_id (on_session_start r peer host none now).0 host source later).0
            source)
          source
        ≡ some (record (running r peer host now) {
          key = source;
          source_id = some source;
          active_sessions = 0;
        }))
      × (view
            (on_session_end
              (set_source_id (on_session_start r peer host none now).0 host source later).0
              source)
            host
          ≡ none)
session_with_upgrade_balanced r peer host source now later w ne no_host no_source =
    let r₁ = (on_session_start r peer host none now).0 in
    let w₁ = on_session_start-WellKeyed r peer host none now w in
    let w₂ = set_source_id-WellKeyed r₁ host source later w₁ in
    let n = running r peer host now in
    let at_host =
      view-running r peer host now host w
      ∙ if_true (host == host) (some n) (view r host) (==_refl host) in
    let at_source =
      view-running r peer host now source w
      ∙ if_false (host == source) (some n) (view r source) ne
      ∙ no_source in
    let moved_view =
      λ (j : Text). view-set_source_id r₁ host source later n j w₁ ne at_source at_host in
    let r₂ = (set_source_id r₁ host source later).0 in
    (
      view-on_session_end r₂ source source w₂
          ∙ if_true (source == source) (map_node end_update (view r₂ source)) (view r₂ source)
              (==_refl source)
          ∙ ap (map_node end_update) (
              moved_view source
              ∙ if_true (source == source) (some (upgrade_update source n))
                  (if host == source then none else view r₁ source) (==_refl source))
          ∙ ended (found_or (new_node host host none now now) (view r host))
              (ap (λ o. (found_or (new_node host host none now now) o).active_sessions) no_host),
      view-on_session_end r₂ source host w₂
          ∙ if_false (source == host) (map_node end_update (view r₂ host)) (view r₂ host) (flip ne)
          ∙ moved_view host
          ∙ if_false (source == host) (some (upgrade_update source n))
              (if host == host then none else view r₁ host) (flip ne)
          ∙ if_true (host == host) none (view r₁ host) (==_refl host),
    )
  where
    flip : (host == source) ≡ false → (source == host) ≡ false
    flip h = ground (arith, text_eqb_iff host source, text_eqb_iff source host)

    ended :
        (m : NodeInfo)
        → m.active_sessions ≡ 0
        → some (end_update (upgrade_update source (start_update peer host now m)))
          ≡ some (record (start_update peer host now m) {
            key = source;
            source_id = some source;
            active_sessions = 0;
          })
    ended m h = ground arith

-- When the source id is known from an earlier session, the session moves to the known node, but its
-- count stays with the host: after the session has ended, the host is still shown as connected, and
-- the end was counted at the known node.
pub reconnect_leaves_host_connected :
    (r : NodeRegistry) (peer host source : Text) (now later : ℕ) (m : NodeInfo)
    → WellKeyed r
    → (host == source) ≡ false
    → view r source ≡ some m
    → (view
          (on_session_end
            (set_source_id (on_session_start r peer host none now).0 host source later).0
            source)
          host
        ≡ some (running r peer host now))
      × (connected (running r peer host now) ≡ true)
      × (view
            (on_session_end
              (set_source_id (on_session_start r peer host none now).0 host source later).0
              source)
            source
          ≡ some (end_update m))
reconnect_leaves_host_connected r peer host source now later m w ne known =
    let r₁ = (on_session_start r peer host none now).0 in
    let w₁ = on_session_start-WellKeyed r peer host none now w in
    let n = running r peer host now in
    let at_host =
      view-running r peer host now host w
      ∙ if_true (host == host) (some n) (view r host) (==_refl host) in
    let at_source =
      view-running r peer host now source w
      ∙ if_false (host == source) (some n) (view r source) ne
      ∙ known in
    let same = set_source_id_taken r₁ host source later m at_source in
    (
      ap (λ s. view (on_session_end s source) host) same
          ∙ view-on_session_end r₁ source host w₁
          ∙ if_false (source == host) (map_node end_update (view r₁ host)) (view r₁ host) (flip ne)
          ∙ at_host,
      counted (found_or (new_node host host none now now) (view r host)),
      ap (λ s. view (on_session_end s source) source) same
          ∙ view-on_session_end r₁ source source w₁
          ∙ if_true (source == source) (map_node end_update (view r₁ source)) (view r₁ source)
              (==_refl source)
          ∙ ap (map_node end_update) at_source,
    )
  where
    flip : (host == source) ≡ false → (source == host) ≡ false
    flip h = ground (arith, text_eqb_iff host source, text_eqb_iff source host)

    counted : (x : NodeInfo) → connected (start_update peer host now x) ≡ true
    counted x = ground arith
