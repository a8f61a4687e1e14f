-- ===== src/Audit/Query.antt =====
-- What the query of the audit list asks for.
use accp.Prelude.{◌≡◌, refl, ◌∙◌, [], none, ap}
use accp.Text.{codes, text_eq}
use accp.Assoc.{lookup}
use accp.TaskQuery.{Params, get_param, set_filled, or_blank}
use accp.TaskQuery.Params.{set_filled_ne, set_filled_self}
use accp.Audit.{AuditFilters, AuditOptions, audit_params}

-- The parameters without those of the options.
abbrev filter_params : AuditFilters → Params
filter_params filters = set_filled (codes "project") filters.project_id (
    set_filled (codes "to") filters.to (
      set_filled (codes "from") filters.from (
        set_filled (codes "action") filters.action
          (set_filled (codes "task") filters.task (set_filled (codes "actor") filters.actor [])))))

no_cursor : (filters : AuditFilters) → get_param (codes "cursor") (filter_params filters) ≡ none
unfolding text_eq get_param lookup
no_cursor filters =
    set_filled_ne (codes "cursor") (codes "project") filters.project_id _ refl
    ∙ set_filled_ne (codes "cursor") (codes "to") filters.to _ refl
    ∙ set_filled_ne (codes "cursor") (codes "from") filters.from _ refl
    ∙ set_filled_ne (codes "cursor") (codes "action") filters.action _ refl
    ∙ set_filled_ne (codes "cursor") (codes "task") filters.task _ refl
    ∙ set_filled_ne (codes "cursor") (codes "actor") filters.actor [] refl

-- The query asks for the page of the cursor that it is given, and without one for the first page.
audit_params-cursor :
    (filters : AuditFilters) (opts : AuditOptions)
    → or_blank (get_param (codes "cursor") (audit_params filters opts)) ≡ or_blank opts.cursor
unfolding text_eq
audit_params-cursor filters opts =
    ap or_blank (
      set_filled_ne (codes "cursor") (codes "format") (or_blank opts.format)
        (set_filled (codes "cursor") (or_blank opts.cursor) limited) refl)
    ∙ set_filled_self (codes "cursor") (or_blank opts.cursor) limited (
        set_filled_ne (codes "cursor") (codes "limit") (or_blank opts.limit) (filter_params filters)
          refl
        ∙ no_cursor filters)
  where
    limited : Params
    limited = set_filled (codes "limit") (or_blank opts.limit) (filter_params filters)
