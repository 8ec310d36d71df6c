-- ===== src/Strest/Convert.antt =====
-- NewRequestDynMap, ToDynMap and NewResponseDynMap of cheshire/strestpackets.go: packets from and to
-- the maps that the JSON protocol decodes and encodes. `sprint` is as in DynMap/Cast.
use goshire.Base.{[], Option, none, some, pos, negsuc}
use goshire.Text.{Str, codes}
use goshire.DynMap.Fields.{Value, str, float, dynmap, Fields, end, remove}
use goshire.DynMap.Path.{put_with_dot}
use goshire.DynMap.Getters.{must_int64, must_string, get_dyn_map, must_dyn_map}
use goshire.Strest.{Request, Response, ShardRequest, strest_version}

-- Request.ToDynMap.
unfoldable pub to_dyn_map : Request → Fields
to_dyn_map r =
    let a = (put_with_dot end (codes "strest.params") (dynmap r.params)).0 in
    let b = (put_with_dot a (codes "strest.v") (float (pos r.version) (codes "2"))).0 in
    let c = (put_with_dot b (codes "strest.uri") (str r.uri)).0 in
    let d = (put_with_dot c (codes "strest.method") (str r.method)).0 in
    (put_with_dot d (codes "strest.txn.accept") (str r.txn_accept)).0

module _ (sprint : Value → Str) where
  -- The shard request of NewRequestDynMap: from the map under "strest.shard", or from the parameters.
  abbrev pub shard_of : Option Fields → Fields → ShardRequest
  shard_of (some shard) params = record {
    partition = must_int64 shard (codes "partition") (negsuc 0);
    key = must_string sprint shard (codes "key") [];
    revision = must_int64 shard (codes "revision") (negsuc 0);
  }
  shard_of none params = record {
    partition = must_int64 params (codes "_p") (negsuc 0);
    key = must_string sprint params (codes "_k") [];
    revision = must_int64 params (codes "_v") (negsuc 0);
  }

  -- NewRequestDynMap.
  unfoldable pub new_request_dyn_map : Fields → Request
  new_request_dyn_map m =
      let params = must_dyn_map m (codes "strest.params") end in
      record {
        version = strest_version;
        user_agent = [];
        txn_id = must_string sprint m (codes "strest.txn.id") [];
        txn_accept = must_string sprint m (codes "strest.txn.accept") (codes "single");
        uri = must_string sprint m (codes "strest.uri") [];
        method = must_string sprint m (codes "strest.method") (codes "GET");
        params = params;
        content_encoding = [];
        content = [];
        shard = some (shard_of (get_dyn_map m (codes "strest.shard")) params);
      }

  -- NewResponseDynMap.
  unfoldable pub new_response_dyn_map : Fields → Response
  new_response_dyn_map m =
      let strest = must_dyn_map m (codes "strest") end in
      let status = must_dyn_map m (codes "status") end in
      let m' = (remove (codes "strest") m).1 in
      let values = (remove (codes "status") m').1 in
      record {
        values = values;
        txn_id = must_string sprint strest (codes "txn.id") [];
        txn_status = must_string sprint strest (codes "txn.status") (codes "completed");
        status_code = must_int64 status (codes "code") (pos 200);
        status_message = must_string sprint status (codes "message") (codes "OK");
        content_encoding = [];
        content = [];
      }
