-- ===== src/Gateway/Errors.antt =====
-- middlewares/errorHandler.ts.
use bankos.Prelude.{String, Bool, false, Option, none, some, if◌then◌else◌}
use Prim.Native.String
use bankos.Http.{Answer}
use bankos.Text.{contains}

-- `err.message && err.message.includes(text)`; an empty message includes none of the texts.
unfoldable pub says : Option String → String → Bool
says none text = false
says (some message) text = contains message text

-- `errorHandlerMiddleware`, by the message of the error.
unfoldable pub answer_error : Option String → Answer
unfolding says
answer_error message =
    if says message "request entity too large"
    then record {
      status = 413;
      error = "Payload Too Large";
      message = "The request body exceeds the allowed size limit of 1MB.";
    }
    else if says message "Not allowed by CORS"
    then record {
      status = 403;
      error = "Forbidden";
      message = "Cross-Origin Request Blocked by CORS Policy";
    }
    else record {
      status = 500;
      error = "Internal Server Error";
      message = "An unexpected error occurred.";
    }

-- `notFoundMiddleware`
unfoldable pub not_found : (method url : String) → Answer
not_found method url = record {
  status = 404;
  error = "Not Found";
  message =
      String.◌++◌ "The requested resource "
        (String.◌++◌ method (String.◌++◌ " " (String.◌++◌ url " was not found on the Gateway.")));
}
