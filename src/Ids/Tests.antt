-- ===== src/Ids/Tests.antt =====
-- An accepted table id, and ids that are refused.
use revisium_engine.Base.{none, some, ◌≡◌, inl, refl}
use revisium_engine.Base.Result.{ok, throw}
use revisium_engine.Ids.{
  find_table_id_error, validate_row_id, validate_branch_name, validate_url_like_id,
  table_id_system_prefix_error_message, reserved_branch_name_error_message,
}
use revisium_engine.Ids.Accepted.{accepted-row_id}

accepted : find_table_id_error "blog_posts" ≡ none
unfolding find_table_id_error
accepted = refl

reserved_prefix : find_table_id_error "revisium_schema" ≡ some table_id_system_prefix_error_message
unfolding find_table_id_error
reserved_prefix = refl

reserved_name : validate_branch_name "Draft" ≡ throw reserved_branch_name_error_message
unfolding validate_branch_name validate_url_like_id
reserved_name = refl

accepted-row_id_example : validate_row_id "blog_posts" ≡ ok tt
accepted-row_id_example = accepted-row_id "blog_posts" (inl accepted)
