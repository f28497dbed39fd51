-- ===== src/Tests/Requests.antt =====
-- The parsers and requests of cmd/core at concrete inputs, and the theorems about them.
use eupf.Base.{◌≡◌, refl, arith, true, none, some, [], ◌∷◌, nat_eq, string_eq, bytes_eq}
use eupf.Base.Outcome.{ok}
use eupf.Base.Outcome.Yields.{Yields}
use eupf.Base.Outcome.Errs.{Errs}
use eupf.Base.Text.{codes}
use eupf.Base.Table.{lookup}
use eupf.Base.MapOrder.{kept_order}
use eupf.Ebpf.Types.{FarInfo, zero_entrypoint_pdr_info}
use eupf.Ebpf.IdTracker.{new_id_tracker}
use eupf.Ebpf.Objects.Far.{far_at}
use eupf.Core.Handlers.Apply.{remove_far}
use eupf.Core.Handlers.Apply.Missing.{remove_far-missing}
use eupf.Core.PdrContext.Skips.{delete_pdr-skips}
use eupf.Ebpf.Objects.{BpfObjects}
use eupf.Ebpf.Objects as Objects
use eupf.Core.Session.{Session, SpdrInfo, zero_spdr_info, zero_sfar_info}
use eupf.Core.Connection.{PfcpConnection, NodeAssociation, new_node_association}
use eupf.Core.Work.{Work, start_work}
use eupf.Core.Sdf.{parse_sdf_filter, any_address}
use eupf.Core.Sdf.Bounds.{IsFilter, parse_sdf_filter-IsFilter}
use eupf.Core.PdrContext.{extract_fteid, delete_pdr}
use eupf.Core.PdrContext.Choose.{extract_fteid-shared}
use eupf.Core.Handlers.Deletion.{handle_session_deletion_request}
use eupf.Core.Handlers.Teardown.{delete_association}
use eupf.Core.Handlers.Dispatch.{handle, datagram, session_deletion_request}
use eupf.Core.Handlers.Effects.Leases.{busy_ips_of, deletion-leases}
use eupf.Core.Handlers.Effects.Failed.{handle-failed_deletion, far_stays}
use eupf.Core.Handlers.Effects.Returns.{delete_association-returns}
use eupf.Tests.Libraries.{libraries, objects, bits-IsBitmap, array-IsArray}
use eupf.Tests.Connections.{plane, conf, start, holding, held, deletion, choose, far}
use eupf.Tests.Deletes.{plane-Deletes}

sdf_test :
    parse_sdf_filter (codes "permit out tcp from 10.1.2.3/24 80-90 to assigned 5")
    ≡ ok (record {
      protocol = 2;
      src_address = record {
        ip_type = 1;
        ip = 10 ∷ 1 ∷ 2 ∷ 0 ∷ [];
        mask = 255 ∷ 255 ∷ 255 ∷ 0 ∷ [];
      };
      src_port_range = record { lower_bound = 80; upper_bound = 90 };
      dst_address = any_address;
      dst_port_range = record { lower_bound = 5; upper_bound = 5 };
    })
unfolding parse_sdf_filter
sdf_test = refl

parse_sdf_filter-IsFilter_example :
    Yields IsFilter (parse_sdf_filter (codes "permit out tcp from 10.1.2.3/24 80-90 to assigned 5"))
parse_sdf_filter-IsFilter_example =
    parse_sdf_filter-IsFilter (codes "permit out tcp from 10.1.2.3/24 80-90 to assigned 5")

abbrev leased_peer : NodeAssociation
leased_peer = record (new_node_association "smf" "smf") {
  next_session_id = 2;
  sessions = (2, held) ∷ [];
}

-- The session of the peer holds an address under the peer's SEID, 100.
abbrev leased : PfcpConnection (BpfObjects libraries)
leased = record holding {
  resource_manager = some (record {
    ipam = some (record { free_ips = []; busy_ips = (100, 10 ∷ 60 ∷ 0 ∷ 1 ∷ []) ∷ [] });
    fteidm = some (record { free_teids = 1 ∷ []; busy_teids = [] });
  });
}

deletion-leases_example :
    lookup 100 (
      busy_ips_of
        (handle_session_deletion_request plane kept_order true deletion "smf"
          leased).1.resource_manager)
    ≡ lookup 100 (busy_ips_of leased.resource_manager)
deletion-leases_example =
    deletion-leases plane kept_order true deletion "smf" leased 100 (λ h. ground (arith, h))

-- A session with a FAR that the kernel map has no place for.
abbrev lost : Session
lost = record held { fars = (1, record zero_sfar_info { far_global_id = 9 }) ∷ [] }

abbrev peer : NodeAssociation
peer = record (new_node_association "smf" "smf") { next_session_id = 2; sessions = (2, lost) ∷ [] }

abbrev losing : PfcpConnection (BpfObjects libraries)
losing = record start { node_associations = ("smf", peer) ∷ [] }

delete_far-Errs : Errs (λ _. Unit {0}) (Objects.delete_far libraries 9)
unfolding Objects.delete_far
delete_far-Errs = record { errs = λ s i. tt }

handle-failed_deletion_example :
    ((handle plane kept_order conf
        (datagram (some (session_deletion_request deletion)) "smf")
        losing).0
      ≡ ok none)
    × ((handle plane kept_order conf
          (datagram (some (session_deletion_request deletion)) "smf")
          losing).1.node_associations
        ≡ losing.node_associations)
unfolding lookup
handle-failed_deletion_example =
    handle-failed_deletion plane kept_order conf plane-Deletes deletion "smf" peer lost losing tt
      refl refl (far_stays 1 (record zero_sfar_info { far_global_id = 9 }) refl delete_far-Errs)

abbrev start_request : Work (BpfObjects libraries)
start_request = start_work objects held start.resource_manager

extract_fteid-shared_example :
    extract_fteid plane kept_order true
      (some choose)
      (record zero_spdr_info { pdr_id = 2 })
      (extract_fteid plane kept_order true (some choose) zero_spdr_info start_request).1
    ≡ (
      ok (record zero_spdr_info { pdr_id = 2; teid = 1; allocated = true }),
      (extract_fteid plane kept_order true (some choose) zero_spdr_info start_request).1,
    )
unfolding extract_fteid lookup
extract_fteid-shared_example =
    extract_fteid-shared plane kept_order true choose choose zero_spdr_info
      (record zero_spdr_info { pdr_id = 2 }) (record zero_spdr_info { teid = 1; allocated = true })
      start_request
      (extract_fteid plane kept_order true (some choose) zero_spdr_info start_request).1 refl refl
      refl refl refl refl

delete_association-returns_example :
    (delete_association plane kept_order true "smf" leased).0 ≡ ok tt
unfolding lookup
delete_association-returns_example =
    delete_association-returns plane kept_order true plane-Deletes "smf" leased_peer leased tt refl

remove_far-missing_example :
    far_at libraries (remove_far plane kept_order true (far 1) start_request).1.plane 0 ≡ none
unfolding lookup new_id_tracker
remove_far-missing_example =
    remove_far-missing libraries bits-IsBitmap 4 (array-IsArray FarInfo) kept_order true (far 1)
      start_request (omega arith) refl refl

-- Two uplink PDRs, of the tunnel ids 9 and 265.
abbrev low : SpdrInfo
low = record zero_spdr_info { pdr_id = 1; teid = 9 }

abbrev high : SpdrInfo
high = record zero_spdr_info { pdr_id = 2; teid = 265 }

abbrev stored_request : Work (BpfObjects libraries)
stored_request = record start_request {
  plane = record objects {
    pdr_map_teid_ip4 = (9, zero_entrypoint_pdr_info) ∷ (265, zero_entrypoint_pdr_info) ∷ [];
  };
}

delete_pdr-skips_example :
    (delete_pdr plane kept_order true high
      (delete_pdr plane kept_order true low stored_request).1).1.plane
    ≡ (delete_pdr plane kept_order true low stored_request).1.plane
unfolding delete_pdr lookup Objects.delete_pdr_uplink
delete_pdr-skips_example =
    delete_pdr-skips plane kept_order kept_order true low high stored_request
      (delete_pdr plane kept_order true low stored_request).1 (refl, refl) (refl, refl) refl refl
