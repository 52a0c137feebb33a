-- ===== src/Delivery/Storage.antt =====
-- internal/infrastructure/storage/storage.go: the adapters, whose remote calls are placeholders.
use video_encoder_service.Prelude.{
  ◌⊎◌, inl, inr, String, ◌||◌, List, [], str_append, str_eq, if◌then◌else◌,
}
use video_encoder_service.Types.Error.{Error, message, new_error}

-- types.StorageConfig, of a job
pub record StorageConfig : Type 0 where
  pub kind : String
  pub bucket : String
  pub region : String
  pub path : String

-- The interface.
pub record StorageAdapter : Type 0 where
  pub upload : String → String → Error ⊎ String
  pub download : String → String → Error ⊎ Unit {0}
  pub delete : String → Error ⊎ Unit {0}
  pub get_url : String → Error ⊎ String
  pub list : String → Error ⊎ List String

-- "For local storage, files are already in place"; the path of the configuration is not read.
unfoldable pub new_local_adapter : StorageConfig → StorageAdapter
new_local_adapter c = record {
  upload = λ local_path remote_path. inr local_path;
  download = λ remote_path local_path. inr tt;
  delete = λ remote_path. inr tt;
  get_url = λ remote_path. inr remote_path;
  list = λ prefix. inr [];
}

abbrev s3_url : StorageConfig → String → String
s3_url c remote_path = str_append "https://" (
    str_append c.bucket
      (str_append ".s3." (str_append c.region (str_append ".amazonaws.com/" remote_path))))

unfoldable pub new_s3_adapter : StorageConfig → StorageAdapter
new_s3_adapter c = record {
  upload = λ local_path remote_path. inr (s3_url c remote_path);
  download = λ remote_path local_path. inl (new_error "S3 download not implemented");
  delete = λ remote_path. inl (new_error "S3 delete not implemented");
  get_url = λ remote_path. inr (s3_url c remote_path);
  list = λ prefix. inr [];
}

abbrev gcs_url : StorageConfig → String → String
gcs_url c remote_path =
    str_append "https://storage.googleapis.com/" (str_append c.bucket (str_append "/" remote_path))

unfoldable pub new_gcs_adapter : StorageConfig → StorageAdapter
new_gcs_adapter c = record {
  upload = λ local_path remote_path. inr (gcs_url c remote_path);
  download = λ remote_path local_path. inl (new_error "GCS download not implemented");
  delete = λ remote_path. inl (new_error "GCS delete not implemented");
  get_url = λ remote_path. inr (gcs_url c remote_path);
  list = λ prefix. inr [];
}

abbrev azure_url : StorageConfig → String → String
azure_url c remote_path =
    str_append "https://" (str_append c.bucket (str_append ".blob.core.windows.net/" remote_path))

unfoldable pub new_azure_adapter : StorageConfig → StorageAdapter
new_azure_adapter c = record {
  upload = λ local_path remote_path. inr (azure_url c remote_path);
  download = λ remote_path local_path. inl (new_error "Azure download not implemented");
  delete = λ remote_path. inl (new_error "Azure delete not implemented");
  get_url = λ remote_path. inr (azure_url c remote_path);
  list = λ prefix. inr [];
}

abbrev unsupported : String → Error
unsupported kind = message (str_append "unsupported storage type: " kind)

unfoldable pub create_adapter : StorageConfig → Error ⊎ StorageAdapter
create_adapter c =
    if str_eq c.kind "s3"
    then inr (new_s3_adapter c)
    else if str_eq c.kind "gcs"
    then inr (new_gcs_adapter c)
    else if str_eq c.kind "azure"
    then inr (new_azure_adapter c)
    else if str_eq c.kind "local" || str_eq c.kind ""
    then inr (new_local_adapter c)
    else inl (unsupported c.kind)
