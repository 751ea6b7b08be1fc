-- ===== src/Quota/Repository/Status.antt =====
-- src/server/quota/repository.ts: `status`.
use openvac_web.Prelude.{◌&&◌, none, some, List, map, str_eq, first}
use openvac_web.Quota.Types.{
  same_resource, same_scope_type, QuotaScopePolicy, QuotaScopeUsage, Database,
}
use openvac_web.Quota.Repository.Rows.{RepositoryStatusInput, scope_usage}

-- `status` of one scope: a scope with no bucket yet has its whole limit left.
unfoldable pub scope_status : RepositoryStatusInput → Database → QuotaScopePolicy → QuotaScopeUsage
unfolding scope_usage
scope_status input db scope =
    elim (first
      (λ b.
        same_resource b.resource input.resource
        && (same_scope_type b.scope_type scope.scope_type
            && (str_eq b.scope_key scope.scope_key && str_eq b.window_key input.window.key)))
      db.buckets) [
        | some bucket ↦ scope_usage bucket
        | none ↦ record {
          scope_type = scope.scope_type;
          scope_key = scope.scope_key;
          limit = scope.limit;
          reserved_units = 0;
          committed_units = 0;
          remaining = scope.limit;
          reset_at = input.window.reset_at;
        }
      ]

unfoldable pub status : RepositoryStatusInput → Database → List QuotaScopeUsage
unfolding scope_status
status input db = map (scope_status input db) input.scopes
