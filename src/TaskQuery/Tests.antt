-- ===== src/TaskQuery/Tests.antt =====
-- web/src/tasks/taskListSearchParams.ts at concrete inputs.
use accp.Prelude.{if◌then◌else◌, ◌≡◌, refl, true, false, not, List, [], ◌∷◌, ◌++◌, map, filter}
use accp.Text.{Text, codes, text_eq, is_empty, starts_with, split, cons_part, join, trim}
use accp.Assoc.{lookup}
use accp.TaskQuery.{
  Params, title, asc, desc, TaskListQuery, read_params, parse_task_list_search, task_list_params,
  serialize_task_list_search, build_task_list_request_params,
}
use accp.TaskQuery.Reading.{
  parse_task_list_search-serialize, read_params-build_task_list_request_params,
}

-- The form of the address for these tests, without escapes.
abbrev pair_of : List Text → Text × Text
pair_of [] = ([], [])
pair_of (k ∷ []) = (k, [])
pair_of (k ∷ v ∷ _) = (k, v)

plain_parse : Text → Params
unfolding split
plain_parse text =
    map (λ part. pair_of (split 61 part)) (filter (λ part. not (is_empty part)) (split 38 text))

plain_print : Params → Text
unfolding join
plain_print ps = join 38 (map (λ (p : Text × Text). p.0 ++ 61 ∷ p.1) ps)

abbrev archived_query : TaskListQuery
archived_query = record {
  q = codes "log in";
  owner = codes "me";
  status = codes "archived";
  sort = title;
  order = desc;
}

serialize_run :
    serialize_task_list_search plain_print archived_query
    ≡ codes "?q=log in&owner=me&archived=true&sort=title&order=desc"
unfolding serialize_task_list_search task_list_params plain_print text_eq
serialize_run = refl

normalize_run :
    parse_task_list_search plain_parse (codes "?status=DONE&sort=title&order=up")
    ≡ (record { q = []; owner = []; status = codes "DONE"; sort = title; order = asc }, true)
unfolding parse_task_list_search plain_parse text_eq starts_with lookup trim cons_part
normalize_run = refl

written_back :
    plain_parse (plain_print (task_list_params archived_query)) ≡ task_list_params archived_query
unfolding plain_parse plain_print task_list_params text_eq cons_part
written_back = refl

parse_task_list_search-serialize_example :
    parse_task_list_search plain_parse (serialize_task_list_search plain_print archived_query)
    ≡ (record archived_query { q = trim (codes "log in") }, false)
parse_task_list_search-serialize_example =
    parse_task_list_search-serialize archived_query plain_parse plain_print written_back

abbrev messy_search : Text
messy_search = codes "?order=up&sort=title&owner=u1&x=y"

read_back :
    plain_parse (plain_print (task_list_params (parse_task_list_search plain_parse messy_search).0))
    ≡ task_list_params (parse_task_list_search plain_parse messy_search).0
unfolding plain_parse plain_print task_list_params parse_task_list_search text_eq cons_part
    starts_with lookup trim
read_back = refl

read_params-build_task_list_request_params_example :
    read_params
      (build_task_list_request_params archived_query (codes "u7") (codes "c") (codes "25"))
    ≡ (
      record archived_query {
        q = trim (codes "log in");
        owner = if text_eq (codes "me") (codes "me") then codes "u7" else codes "me";
      },
      false,
    )
read_params-build_task_list_request_params_example =
    read_params-build_task_list_request_params archived_query (codes "u7") (codes "c") (codes "25")
