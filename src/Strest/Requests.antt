-- ===== src/Strest/Requests.antt =====
-- A request that is turned into a map is read back from it, but for what ToDynMap leaves out.
use goshire.Base.{◌≡◌, refl, [], some, none}
use goshire.Text.{Str, split, str_eq}
use goshire.DynMap.Fields.{Value, lookup, put}
use goshire.DynMap.Path.{get, walk, put_path, put_with_dot}
use goshire.DynMap.Cast.{to_text}
use goshire.DynMap.Getters.{must_string, get_dyn_map, must_dyn_map}
use goshire.Strest.{Request, strest_version}
use goshire.Strest.Convert.{to_dyn_map, new_request_dyn_map, shard_of}

-- The map of a request is read back as a request with its accept, uri, method and parameters. The
-- txn id, the user agent and the content are lost, and the shard request is made from the parameters
-- instead: ToDynMap does not write them.
new_request-to_dyn_map :
    (sprint : Value → Str) (r : Request)
    → new_request_dyn_map sprint (to_dyn_map r) ≡ record {
      version = strest_version;
      user_agent = [];
      txn_id = [];
      txn_accept = r.txn_accept;
      uri = r.uri;
      method = r.method;
      params = r.params;
      content_encoding = [];
      content = [];
      shard = some (shard_of sprint none r.params);
    }
unfolding new_request_dyn_map to_dyn_map put_with_dot put_path get walk split lookup put str_eq
    to_text must_string get_dyn_map must_dyn_map
new_request-to_dyn_map sprint r = refl
