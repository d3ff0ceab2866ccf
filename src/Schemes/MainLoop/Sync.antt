-- ===== src/Schemes/MainLoop/Sync.antt =====
-- Which schemes the listeners of src/CollectionSchemeManager.cpp are told to be active.
use aws_iot_fleetwise_edge.Prelude.{ℕ, ◌≡◌, true, List, [], ◌∷◌, arith, All, Bool-cases, inl, inr}
use aws_iot_fleetwise_edge.Schemes.Types.{CollectionScheme}
use aws_iot_fleetwise_edge.Schemes.Manager.{CollectionSchemeManager}
use aws_iot_fleetwise_edge.Schemes.MainLoop.{
  all_in_sync, is_collection_schemes_in_sync_with_dm, schemes_of, active_collection_schemes,
}

abbrev pub UsesManifest : ℕ → CollectionScheme → Type 0
UsesManifest id s = s.decoder_manifest_id ≡ id

all_in_sync-UsesManifest :
    (id : ℕ) (m : List (ℕ × CollectionScheme))
    → all_in_sync id m ≡ true
    → All (UsesManifest id) (schemes_of m)
unfolding all_in_sync
all_in_sync-UsesManifest id [] h = tt
all_in_sync-UsesManifest id ((k, s) ∷ m) h = ground (arith, h, all_in_sync-UsesManifest id m)

-- Every scheme that the listeners are told to be active belongs to the decoder manifest in use.
pub active_collection_schemes-UsesManifest :
    (m : CollectionSchemeManager)
    → All (UsesManifest m.current_decoder_manifest_id) (active_collection_schemes m)
unfolding active_collection_schemes
active_collection_schemes-UsesManifest m =
    elim (Bool-cases (is_collection_schemes_in_sync_with_dm m)) [
      | inl e ↦ rw e (
          all_in_sync-UsesManifest m.current_decoder_manifest_id m.schedule.enabled
            (ground (arith, e)))
      | inr e ↦ rw e tt
    ]
