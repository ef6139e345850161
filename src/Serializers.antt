-- ===== src/Serializers.antt =====
-- app/serializers: the bodies of requests, and the public projections of users, sessions and words.
use wordotron_api.Prelude.{ℕ, Bool, Option, List, map}
use wordotron_api.Text.{GoString}
use wordotron_api.Models.{Uuid, Time, User}
use wordotron_api.Models.Words.{Word, WordSense, WordMeta}
use wordotron_api.Auth.Token.{TokenPair}
use wordotron_api.Services.Auth.{AuthResult}

pub record RegisterRequest : Type 0 where
  pub email : GoString
  pub password : GoString
  pub full_name : GoString

pub record LoginRequest : Type 0 where
  pub email : GoString
  pub password : GoString

-- `RefreshRequest` and `LogoutRequest`
pub record RefreshRequest : Type 0 where
  pub refresh_token : GoString

pub record ChangePasswordRequest : Type 0 where
  pub current_password : GoString
  pub new_password : GoString

pub record ForgotPasswordRequest : Type 0 where
  pub email : GoString

pub record ResetPasswordRequest : Type 0 where
  pub token : GoString
  pub new_password : GoString

pub record VerifyEmailRequest : Type 0 where
  pub token : GoString

pub record CreateUserRequest : Type 0 where
  pub email : GoString
  pub password : GoString
  pub full_name : GoString
  pub role : GoString

pub record UpdateUserRequest : Type 0 where
  pub full_name : Option GoString
  pub role : Option GoString
  pub is_active : Option Bool

pub record CreateWordRequest : Type 0 where
  pub term : GoString
  pub language : GoString

pub record UserResponse : Type 0 where
  pub id : Uuid
  pub email : GoString
  pub full_name : GoString
  pub role : GoString
  pub avatar_url : Option GoString
  pub is_active : Bool
  pub email_verified_at : Option Time
  pub last_login_at : Option Time
  pub created_at : Time
  pub updated_at : Time

unfoldable pub to_user_response : User → UserResponse
to_user_response u = record {
  id = u.id;
  email = u.email;
  full_name = u.full_name;
  role = u.role;
  avatar_url = u.avatar_url;
  is_active = u.is_active;
  email_verified_at = u.email_verified_at;
  last_login_at = u.last_login_at;
  created_at = u.created_at;
  updated_at = u.updated_at;
}

unfoldable pub to_user_responses : List User → List UserResponse
to_user_responses users = map to_user_response users

pub record TokensResponse : Type 0 where
  pub access_token : GoString
  pub refresh_token : GoString
  pub token_type : GoString
  pub expires_in : ℕ
  pub expires_at : Time

pub record AuthResponse : Type 0 where
  pub user : UserResponse
  pub tokens : TokensResponse

unfoldable pub to_tokens_response : TokenPair → TokensResponse
to_tokens_response pair = record {
  access_token = pair.access_token;
  refresh_token = pair.refresh_token;
  token_type = pair.token_type;
  expires_in = pair.expires_in;
  expires_at = pair.expires_at;
}

unfoldable pub to_auth_response : AuthResult → AuthResponse
to_auth_response result = record {
  user = to_user_response result.user;
  tokens = to_tokens_response result.tokens;
}

pub record WordSenseResponse : Type 0 where
  pub id : Uuid
  pub part_of_speech : Option GoString
  pub definition : GoString
  pub example : Option GoString
  pub meta : WordMeta

pub record WordResponse : Type 0 where
  pub id : Uuid
  pub term : GoString
  pub language : GoString
  pub pronunciation : Option GoString
  pub tags : Option (List GoString)
  pub senses : List WordSenseResponse
  pub created_at : Time
  pub updated_at : Time

unfoldable pub to_word_sense_response : WordSense → WordSenseResponse
to_word_sense_response s = record {
  id = s.id;
  part_of_speech = s.part_of_speech;
  definition = s.definition;
  example = s.example;
  meta = s.meta;
}

unfoldable pub to_word_response : Word → WordResponse
to_word_response w = record {
  id = w.id;
  term = w.term;
  language = w.language;
  pronunciation = w.pronunciation;
  tags = w.tags;
  senses = map to_word_sense_response w.senses;
  created_at = w.created_at;
  updated_at = w.updated_at;
}

unfoldable pub to_word_responses : List Word → List WordResponse
to_word_responses words = map to_word_response words
