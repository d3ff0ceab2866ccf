-- ===== src/Schemes/Handover.antt =====
-- The hand-over of documents from the receiver to the main loop in src/CollectionSchemeManager.cpp.
use aws_iot_fleetwise_edge.Prelude.{◌≡◌, refl, Bool, true, false, ◌||◌, Option, none, some}
use aws_iot_fleetwise_edge.Schemes.Manager.{
  CollectionSchemeManager, CollectionSchemeList, update_available, on_collection_scheme_update,
}

abbrev list_or :
    Option CollectionSchemeList → Option CollectionSchemeList → Option CollectionSchemeList
list_or none before = before
list_or (some l) before = some l

abbrev is_given : Option CollectionSchemeList → Bool
is_given none = false
is_given (some l) = true

-- After two lists arrive, either of which may be null, and the main loop wakes up, the second list
-- waits to be processed and the first is forgotten. If the second is null, the list of before
-- stays, and waits if it did. The schedule is not changed.
pub collection_scheme_handover :
    (missed input : Option CollectionSchemeList) (m : CollectionSchemeManager)
    → let m' =
        update_available
          (on_collection_scheme_update input (on_collection_scheme_update missed m)) in
      (m'.collection_scheme_list ≡ list_or input m.collection_scheme_list)
      × (m'.process_collection_scheme ≡ (is_given input || m.process_collection_scheme))
      × (m'.schedule ≡ m.schedule)
unfolding update_available
collection_scheme_handover missed none m = (refl, refl, refl)
collection_scheme_handover missed (some l) m = (refl, refl, refl)
