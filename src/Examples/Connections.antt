-- ===== src/Examples/Connections.antt =====
-- An example for the steps of the discovery server: two connections, of which one breaks at a push.
use federation.Common.{
  ℕ, ◌≡◌, ap, Bool-cases, inl, inr, Option, none, some, arith, ◌==◌, refl, ◌↔◌, true, List, [], ◌∷◌,
  ok, err, not_found, codes, concat_map, text_eq,
}
use federation.Common.GoMap.{lookup, insert}
use federation.Xds.{exported_service_type_url}
use federation.Xds.Server.{id_key, AdsServer, Subscriber, push, stream_aggregated_resources}
use federation.Xds.Server.Steps.{IsNew, connect, broadcast, Reach, start, later, Inv, fresh_server}
use federation.Xds.Server.Steps.Kept.{Reach-Inv}
use federation.Xds.Server.Recv.{
  Arrival, recv_from_stream, before_error, answers_to, snapshot, with_answers, recv_from_stream_lem,
}
use federation.Xds.Server.Abstract.{is_expected, events_of, IsSubscribed}
use federation.Xds.Server.Abstract.Refines.{Reach-Refines}
use federation.Informer.{request}
use federation.Examples.Pushes.{surroundings, surroundings-Visits}

first_IsNew : IsNew 5 fresh_server
unfolding lookup
first_IsNew = record { unused = λ id sub h. absurd (cc); unclosed = λ m. elim m [ ] }

abbrev first_connected : AdsServer
first_connected = stream_aggregated_resources 5 fresh_server

second_IsNew : IsNew 7 first_connected
unfolding lookup stream_aggregated_resources insert
second_IsNew = record { unused = λ id sub h e. elsewhere id sub h e; unclosed = λ m. elim m [ ] }
  where
    elsewhere :
        (id : ℕ) (sub : Subscriber)
        → lookup id first_connected.subscribers ≡ some sub
        → sub.stream ≡ 7
        → ⊥
    elsewhere id sub h e = elim (Bool-cases (1 == id)) [
      | inl same ↦ absurd (let q = rw same at h in let s = ap stream_of q in omega arith)
      | inr other ↦ absurd (let q = rw other at h in cc)
    ]
      where
        stream_of : Option Subscriber → ℕ
        stream_of none = 0
        stream_of (some p) = p.stream

abbrev both_connected : AdsServer
both_connected = stream_aggregated_resources 7 first_connected

both_reached : Reach both_connected
unfolding stream_aggregated_resources
both_reached =
    later (later start (connect 5 first_IsNew (omega arith))) (connect 7 second_IsNew (omega arith))

Reach-Inv_example : Inv (push surroundings (request exported_service_type_url) both_connected).0
Reach-Inv_example = Reach-Inv (
    later both_reached
      (broadcast surroundings (request exported_service_type_url) surroundings-Visits))

abbrev after_broadcast :
    Reach (push surroundings (request exported_service_type_url) both_connected).0
after_broadcast =
    later both_reached
      (broadcast surroundings (request exported_service_type_url) surroundings-Visits)

Reach-Refines_example :
    IsSubscribed 7 (push surroundings (request exported_service_type_url) both_connected).0
    ↔ (is_expected (events_of after_broadcast) 7 ≡ true)
Reach-Refines_example = Reach-Refines after_broadcast 7

-- A first request, an update of a version, and the end of the stream.
abbrev arrivals : List Arrival
arrivals =
    (surroundings, ok (record { type_url = exported_service_type_url; version_info = [] }))
    ∷ (surroundings, ok (record { type_url = exported_service_type_url; version_info = codes "1" }))
    ∷ (surroundings, err not_found)
    ∷ (surroundings, ok (record { type_url = exported_service_type_url; version_info = [] }))
    ∷ []

answers_test :
    concat_map (answers_to 7) (before_error arrivals)
    ≡ snapshot surroundings exported_service_type_url ∷ []
unfolding before_error answers_to concat_map text_eq
answers_test = refl

recv_from_stream_example :
    recv_from_stream arrivals 7 both_connected
    ≡ with_answers 7 (concat_map (answers_to 7) (before_error arrivals)) both_connected
recv_from_stream_example = recv_from_stream_lem arrivals 7 both_connected
