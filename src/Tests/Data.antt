-- ===== src/Tests/Data.antt =====
-- The objects that the runs use.
use naavik.Common.{true, false, [], ◌∷◌, none, some}
use naavik.Common.Types.{EventType}
use naavik.Meta.{ObjectMeta}
use naavik.Options.{NaavikArgs, defaults}
use naavik.Resources.{Workload, Service, Dependency, TrafficConfig}
use naavik.Controller.Status.{Channel}
use naavik.Controller.Loop.{Item}
use naavik.Cache.Clusters.{RemoteCluster}
use naavik.Cache.Controllers.{ControllerContext}
use naavik.Handlers.{Caches, Setting, StatusChan, Callback}

abbrev pub params : NaavikArgs
params = defaults

abbrev pub pay_meta : ObjectMeta
pay_meta = record {
  name = "pay";
  namespace = "payments-qa";
  labels =
      ("alpha.istio.io/identity", "Payments")
      ∷ ("sidecar.istio.io/inject", "TRUE")
      ∷ ("admiral.io/env", "QA")
      ∷ [];
  annotations = [];
  resource_version = "7";
}

abbrev pub pay : Workload
pay = record { meta = pay_meta; template = pay_meta }

abbrev pub svc : Service
svc = record { meta = pay_meta }

abbrev pub tc_meta : ObjectMeta
tc_meta = record {
  name = "tc-pay";
  namespace = "admiral";
  labels = ("asset", "Payments") ∷ ("env", "qa") ∷ ("revisionNumber", "3") ∷ [];
  annotations = [];
  resource_version = "1";
}

abbrev pub tc : TrafficConfig
tc = record { meta = tc_meta; workload_env = "qal" ∷ []; edge_service = none; quota_group = none }

abbrev pub web_calls_pay : Dependency
web_calls_pay = record { source = "Web"; destinations = "Payments" ∷ "Ledger" ∷ [] }

-- The caches are warm, and the lease allows writes, or not.
abbrev pub live : Setting
live = record { params = params; elapsed = 90000000000; is_read_only = false }

abbrev pub read_only : Setting
read_only = record { params = params; elapsed = 90000000000; is_read_only = true }

abbrev pub no_caches : Caches
no_caches = record {
  deployments = [];
  rollouts = [];
  services = [];
  identities = [];
  dependencies = record { dependencies = []; dependents = [] };
  traffic_configs = [];
}

abbrev pub fresh : Channel Callback
fresh = record { sent = []; is_closed = false }

abbrev pub fresh_chan : StatusChan
fresh_chan = some fresh

abbrev pub cluster : RemoteCluster (Unit {0})
cluster = record {
  cluster_id = "Cluster1";
  context_name = "ctx";
  secret_identifier = "s";
  host = "h";
  clients = tt;
}

abbrev pub context : ControllerContext (Unit {0})
context = record { worker_ctx = []; stop_ch = some tt }

abbrev pub item : Item (Unit {0}) (Unit {0})
item = record {
  key = "ns/pay";
  event_type = EventType.add;
  obj = tt;
  old_obj = none;
  retry_count = 2;
  on_status_override = none;
}
