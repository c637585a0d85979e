-- ===== src/Core/ErrorMessage.antt =====
-- app/core/messages.py: the messages of `class ErrorMessage` that the modelled code raises.
use prompt_studio_backend.Prelude.{String}

abbrev pub invalid_credentials : String
invalid_credentials = "Incorrect email or password"

abbrev pub could_not_validate_credentials : String
could_not_validate_credentials = "Could not validate credentials"

abbrev pub not_enough_permissions : String
not_enough_permissions = "You do not have permission to do that"

abbrev pub inactive_user : String
inactive_user = "This account has been deactivated"

abbrev pub account_locked : String
account_locked = "Too many failed attempts. Try again in a few minutes"

abbrev pub user_not_found_or_inactive : String
user_not_found_or_inactive = "User not found or inactive"

abbrev pub email_already_exists : String
email_already_exists = "An account with that email already exists"

abbrev pub invalid_token_type : String
invalid_token_type = "Wrong token type for this endpoint"

abbrev pub invalid_refresh_token : String
invalid_refresh_token = "Invalid or expired refresh token"

abbrev pub token_revoked : String
token_revoked = "This token has been revoked"

abbrev pub invalid_reset_token : String
invalid_reset_token = "Invalid or expired reset link"

abbrev pub reset_token_used : String
reset_token_used = "This reset link has already been used"

abbrev pub current_password_incorrect : String
current_password_incorrect = "Current password is incorrect"

abbrev pub password_too_weak : String
password_too_weak = "Password must be at least 8 characters and contain a letter and a number"

abbrev pub same_password : String
same_password = "New password must be different from the current one"

abbrev pub invalid_verify_token : String
invalid_verify_token = "Invalid or expired confirmation link"

abbrev pub resource_not_found : String
resource_not_found = "Not found"

abbrev pub project_not_found : String
project_not_found = "Project not found"

abbrev pub public_link_not_found : String
public_link_not_found = "This link is not valid, or the project is no longer shared"

abbrev pub project_role_too_low : String
project_role_too_low = "Your role on this project does not allow that"

abbrev pub not_project_owner : String
not_project_owner = "Only the project owner can do that"

abbrev pub cannot_remove_last_owner : String
cannot_remove_last_owner = "A project must keep at least one owner"

abbrev pub cannot_change_own_role : String
cannot_change_own_role = "You cannot change your own role on a project"

abbrev pub member_already_added : String
member_already_added = "That email is already on this project"

abbrev pub member_not_found : String
member_not_found = "That person is not a member of this project"

abbrev pub version_not_found : String
version_not_found = "That saved version no longer exists"

abbrev pub stale_document : String
stale_document = "Someone else saved a newer version of this project. Reload before saving"

abbrev pub cannot_deactivate_self : String
cannot_deactivate_self = "You cannot deactivate your own account"

abbrev pub cannot_demote_last_superadmin : String
cannot_demote_last_superadmin = "The platform must keep at least one superadmin"
