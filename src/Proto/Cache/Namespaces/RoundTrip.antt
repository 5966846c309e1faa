-- ===== src/Proto/Cache/Namespaces/RoundTrip.antt =====
-- Lemmas about the round trips and the reading of the messages of Proto/Cache/Namespaces.antt.
-- Code: sdk/typescript/src/gen/pgapp/v1
use pgapp.Common.{◌==◌, ◌++◌, ◌∷◌, [], refl, arith, All}
use pgapp.Number.{IsInt64}
use pgapp.Wire.{Runtime, UnknownPolicy}
use pgapp.Wire.Documented.{IsDocumented}
use pgapp.Wire.Loop.{Terminates, case_ends, default_ends, assign-Moves, int64_moves-Advances}
use pgapp.Wire.Fields.{Reads-then, Reads-nothing}
use pgapp.Wire.Scalars.{string_field, int64_field}
use pgapp.Wire.Nested.{
  RoundTrips, round_trips, MessageFits, All-MessageFits→Trips, repeated_field, assign_parsed-Moves,
  read_nested-Moves,
}
use pgapp.Proto.Cache.Namespaces.{
  InvalidateNamespaceRequest, invalidate_namespace_request_type, CacheStatsRequest,
  cache_stats_request_type, cache_stats_request, NamespaceUsage, namespace_usage_type,
  CacheStatsResponse, cache_stats_response_type,
}

abbrev pub InvalidateNamespaceRequestFits : InvalidateNamespaceRequest → Type 0
InvalidateNamespaceRequestFits _ = Unit

pub invalidate_namespace_request_type-RoundTrips :
    {runtime : Runtime}
    → IsDocumented runtime
    → (policy : UnknownPolicy) (m : InvalidateNamespaceRequest) → InvalidateNamespaceRequestFits m
    → RoundTrips runtime (invalidate_namespace_request_type runtime) policy m
unfolding invalidate_namespace_request_type
invalidate_namespace_request_type-RoundTrips documented policy m _ =
    round_trips documented _ policy m (
      string_field documented _ policy 1 (λ v. record { namespace = v }) m.namespace (omega arith)
        refl)

pub invalidate_namespace_request_type-Terminates :
    {runtime : Runtime}
    → IsDocumented runtime
    → Terminates (invalidate_namespace_request_type runtime)
unfolding invalidate_namespace_request_type
invalidate_namespace_request_type-Terminates documented policy field_no t m =
    case_ends (field_no == 1) _ _
      (assign-Moves _ (λ v. record m { namespace = v }) documented.string_moves) default_ends

abbrev pub CacheStatsRequestFits : CacheStatsRequest → Type 0
CacheStatsRequestFits _ = Unit

pub cache_stats_request_type-RoundTrips :
    {runtime : Runtime}
    → IsDocumented runtime
    → (policy : UnknownPolicy) (m : CacheStatsRequest) → CacheStatsRequestFits m
    → RoundTrips runtime (cache_stats_request_type runtime) policy m
unfolding cache_stats_request_type
cache_stats_request_type-RoundTrips documented policy cache_stats_request _ =
    round_trips documented _ policy cache_stats_request (Reads-nothing _)

pub cache_stats_request_type-Terminates :
    {runtime : Runtime} → IsDocumented runtime → Terminates (cache_stats_request_type runtime)
unfolding cache_stats_request_type
cache_stats_request_type-Terminates documented policy field_no t m = default_ends

abbrev pub NamespaceUsageFits : NamespaceUsage → Type 0
NamespaceUsageFits m = (IsInt64 m.key_count) × (IsInt64 m.byte_size)

pub namespace_usage_type-RoundTrips :
    {runtime : Runtime}
    → IsDocumented runtime
    → (policy : UnknownPolicy) (m : NamespaceUsage) → NamespaceUsageFits m
    → RoundTrips runtime (namespace_usage_type runtime) policy m
unfolding namespace_usage_type
namespace_usage_type-RoundTrips documented policy m (h1, h2) = round_trips documented _ policy m (
    Reads-then
      (string_field documented _ policy 1
        (λ v. record { namespace = v; key_count = "0"; byte_size = "0" }) m.namespace (omega arith)
        refl)
      (Reads-then
        (int64_field documented _ policy 2
          (λ v. record { namespace = m.namespace; key_count = v; byte_size = "0" }) m.key_count
          (omega arith) refl h1)
        (int64_field documented _ policy 3
          (λ v. record { namespace = m.namespace; key_count = m.key_count; byte_size = v })
          m.byte_size (omega arith) refl h2)))

pub namespace_usage_type-Terminates :
    {runtime : Runtime} → IsDocumented runtime → Terminates (namespace_usage_type runtime)
unfolding namespace_usage_type
namespace_usage_type-Terminates documented policy field_no t m =
    case_ends (field_no == 1) _ _
      (assign-Moves _ (λ v. record m { namespace = v }) documented.string_moves)
      (case_ends (field_no == 2) _ _
        (assign-Moves _ (λ v. record m { key_count = v }) (int64_moves-Advances documented))
        (case_ends (field_no == 3) _ _
          (assign-Moves _ (λ v. record m { byte_size = v }) (int64_moves-Advances documented))
          default_ends))

abbrev pub CacheStatsResponseFits : CacheStatsResponse → Type 0
CacheStatsResponseFits m =
    (IsInt64 m.hits)
    × (IsInt64 m.misses)
    × (IsInt64 m.writes)
    × (IsInt64 m.deletes)
    × (IsInt64 m.evictions)
    × (IsInt64 m.expired_removals)
    × (IsInt64 m.logical_key_count)
    × (IsInt64 m.logical_byte_size)
    × (All (MessageFits NamespaceUsageFits) m.namespace_usage)

pub cache_stats_response_type-RoundTrips :
    {runtime : Runtime}
    → IsDocumented runtime
    → (policy : UnknownPolicy) (m : CacheStatsResponse) → CacheStatsResponseFits m
    → RoundTrips runtime (cache_stats_response_type runtime) policy m
unfolding cache_stats_response_type
cache_stats_response_type-RoundTrips documented policy m (h1, h2, h3, h4, h5, h6, h7, h8, h9) =
    round_trips documented _ policy m (
      Reads-then
        (int64_field documented _ policy 1
          (λ v. record {
            hits = v;
            misses = "0";
            writes = "0";
            deletes = "0";
            evictions = "0";
            expired_removals = "0";
            logical_key_count = "0";
            logical_byte_size = "0";
            namespace_usage = [];
          })
          m.hits (omega arith) refl h1)
        (Reads-then
          (int64_field documented _ policy 2
            (λ v. record {
              hits = m.hits;
              misses = v;
              writes = "0";
              deletes = "0";
              evictions = "0";
              expired_removals = "0";
              logical_key_count = "0";
              logical_byte_size = "0";
              namespace_usage = [];
            })
            m.misses (omega arith) refl h2)
          (Reads-then
            (int64_field documented _ policy 3
              (λ v. record {
                hits = m.hits;
                misses = m.misses;
                writes = v;
                deletes = "0";
                evictions = "0";
                expired_removals = "0";
                logical_key_count = "0";
                logical_byte_size = "0";
                namespace_usage = [];
              })
              m.writes (omega arith) refl h3)
            (Reads-then
              (int64_field documented _ policy 4
                (λ v. record {
                  hits = m.hits;
                  misses = m.misses;
                  writes = m.writes;
                  deletes = v;
                  evictions = "0";
                  expired_removals = "0";
                  logical_key_count = "0";
                  logical_byte_size = "0";
                  namespace_usage = [];
                })
                m.deletes (omega arith) refl h4)
              (Reads-then
                (int64_field documented _ policy 5
                  (λ v. record {
                    hits = m.hits;
                    misses = m.misses;
                    writes = m.writes;
                    deletes = m.deletes;
                    evictions = v;
                    expired_removals = "0";
                    logical_key_count = "0";
                    logical_byte_size = "0";
                    namespace_usage = [];
                  })
                  m.evictions (omega arith) refl h5)
                (Reads-then
                  (int64_field documented _ policy 6
                    (λ v. record {
                      hits = m.hits;
                      misses = m.misses;
                      writes = m.writes;
                      deletes = m.deletes;
                      evictions = m.evictions;
                      expired_removals = v;
                      logical_key_count = "0";
                      logical_byte_size = "0";
                      namespace_usage = [];
                    })
                    m.expired_removals (omega arith) refl h6)
                  (Reads-then
                    (int64_field documented _ policy 7
                      (λ v. record {
                        hits = m.hits;
                        misses = m.misses;
                        writes = m.writes;
                        deletes = m.deletes;
                        evictions = m.evictions;
                        expired_removals = m.expired_removals;
                        logical_key_count = v;
                        logical_byte_size = "0";
                        namespace_usage = [];
                      })
                      m.logical_key_count (omega arith) refl h7)
                    (Reads-then
                      (int64_field documented _ policy 8
                        (λ v. record {
                          hits = m.hits;
                          misses = m.misses;
                          writes = m.writes;
                          deletes = m.deletes;
                          evictions = m.evictions;
                          expired_removals = m.expired_removals;
                          logical_key_count = m.logical_key_count;
                          logical_byte_size = v;
                          namespace_usage = [];
                        })
                        m.logical_byte_size (omega arith) refl h8)
                      (repeated_field documented _ policy _ 9
                        (λ v. record {
                          hits = m.hits;
                          misses = m.misses;
                          writes = m.writes;
                          deletes = m.deletes;
                          evictions = m.evictions;
                          expired_removals = m.expired_removals;
                          logical_key_count = m.logical_key_count;
                          logical_byte_size = m.logical_byte_size;
                          namespace_usage = v;
                        })
                        m.namespace_usage (omega arith) (λ l. refl)
                        (All-MessageFits→Trips (namespace_usage_type-RoundTrips documented policy)
                          m.namespace_usage h9))))))))))

pub cache_stats_response_type-Terminates :
    {runtime : Runtime} → IsDocumented runtime → Terminates (cache_stats_response_type runtime)
unfolding cache_stats_response_type
cache_stats_response_type-Terminates documented policy field_no t m =
    case_ends (field_no == 1) _ _
      (assign-Moves _ (λ v. record m { hits = v }) (int64_moves-Advances documented))
      (case_ends (field_no == 2) _ _
        (assign-Moves _ (λ v. record m { misses = v }) (int64_moves-Advances documented))
        (case_ends (field_no == 3) _ _
          (assign-Moves _ (λ v. record m { writes = v }) (int64_moves-Advances documented))
          (case_ends (field_no == 4) _ _
            (assign-Moves _ (λ v. record m { deletes = v }) (int64_moves-Advances documented))
            (case_ends (field_no == 5) _ _
              (assign-Moves _ (λ v. record m { evictions = v }) (int64_moves-Advances documented))
              (case_ends (field_no == 6) _ _
                (assign-Moves _ (λ v. record m { expired_removals = v })
                  (int64_moves-Advances documented))
                (case_ends (field_no == 7) _ _
                  (assign-Moves _ (λ v. record m { logical_key_count = v })
                    (int64_moves-Advances documented))
                  (case_ends (field_no == 8) _ _
                    (assign-Moves _ (λ v. record m { logical_byte_size = v })
                      (int64_moves-Advances documented))
                    (case_ends (field_no == 9) _ _
                      (assign_parsed-Moves _
                        (λ v. record m { namespace_usage = m.namespace_usage ++ v ∷ [] })
                        (read_nested-Moves documented _ policy _
                          (namespace_usage_type-Terminates documented)))
                      default_ends))))))))
