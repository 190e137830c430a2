-- ===== src/Cluster/Memory.antt =====
-- A concrete API server, with room for one request, which shows that the documented behaviour can be
-- met and on which the tests run.
use resolution.Cluster.{ApiServer}
use resolution.Cluster.Slot.{
  Slot, stored, get, create, update_status, patch_status, get_found, stored_named, create_stores,
  update_stores, update_version, patch_stores,
}
use resolution.Cluster.Slot.Changes.{
  number, revision, stored-number, create-Change, update_status-Change, patch_status-Change,
}

abbrev pub memory : ApiServer Slot
memory = record {
  stored = stored;
  get = get;
  create = create;
  update_status = update_status;
  patch_status = patch_status;
  get-ok = get_found;
  stored_name = stored_named;
  create-ok = create_stores;
  update_status-ok = update_stores;
  update_status-version = update_version;
  patch_status-ok = patch_stores;
  revision = revision;
  number = number;
  stored-number = stored-number;
  create-Change = create-Change;
  update_status-Change = update_status-Change;
  patch_status-Change = patch_status-Change;
}
